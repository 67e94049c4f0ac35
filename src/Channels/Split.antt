-- ===== src/Channels/Split.antt =====
-- splitLongMessage of channels/telegram.go: a long answer goes to the chat in chunks. The code counts
-- and cuts bytes; the definitions count and cut characters, which are the same thing in an ASCII text,
-- and model the code only for those: the cut of another text can lie within a character. The loop runs on fuel, and `none` says that it ran out.
use starfire_agent_team.Prelude.{
  ℕ, zero, suc, ◌≤◌, ◌<◌, ◌≡◌, refl, sym, ◌∙◌, ap, String, Bool, true, Option, none, some, List, [],
  ◌∷◌, if◌then◌else◌, arith, all, ◌&&◌, leb, concat, Bool-cases, inl, inr, some_inj,
}
use starfire_agent_team.Text.{
  is_empty, trim_space, take_chars, drop_chars, text_length, byte_length, is_ascii, has_prefix,
}
use starfire_agent_team.Text.Ascii.{is_ascii-head, is_ascii-rest, byte_length-ascii}
use starfire_agent_team.Text.Laws.{
  visible, visible-concat, visible-trim_space, take-drop, length-take_chars, length-drop_chars,
  length-trim_space, concat_end,
}

abbrev pub telegram_max_message_len : ℕ
telegram_max_message_len = 4096

abbrev later_or : Bool → Option ℕ → Option ℕ
later_or here none = if here then some 0 else none
later_or here (some n) = some (suc n)

-- strings.LastIndex, for a separator that is not empty; `none` for -1
unfoldable pub last_index : String → String → Option ℕ
last_index separator String.[] = none
last_index separator (String.◌∷◌ c s) =
    later_or (has_prefix (String.◌∷◌ c s) separator) (last_index separator s)

abbrev or_index : Option ℕ → Option ℕ → Option ℕ
or_index none o = o
or_index (some n) o = some n

abbrev cut_at : ℕ → Option ℕ → ℕ
cut_at max_len none = max_len
cut_at max_len (some zero) = max_len
cut_at max_len (some (suc n)) = suc n

-- The last paragraph break, or else line break, or else space.
unfoldable pub split_point : ℕ → String → ℕ
unfolding last_index
split_point max_len remaining =
    let head = take_chars max_len remaining in
    cut_at max_len
      (or_index (last_index "\n\n" head) (or_index (last_index "\n" head) (last_index " " head)))

abbrev pub cons_chunk : String → Option (List String) → Option (List String)
cons_chunk s none = none
cons_chunk s (some chunks) = some (s ∷ chunks)

abbrev pub last_chunk : String → List String
last_chunk s = if is_empty s then [] else s ∷ []

unfoldable pub chunks_of : ℕ → ℕ → String → Option (List String)
chunks_of zero max_len remaining = none
chunks_of (suc fuel) max_len remaining =
    let n = split_point max_len remaining in
    let more = chunks_of fuel max_len (trim_space (drop_chars n remaining)) in
    (if leb (text_length remaining) max_len
      then some (last_chunk remaining)
      else cons_chunk (trim_space (take_chars n remaining)) more)

unfoldable pub split_long_message : ℕ → ℕ → String → Option (List String)
unfolding chunks_of
split_long_message fuel max_len body =
    if leb (text_length body) max_len then some (body ∷ []) else chunks_of fuel max_len body

pub join : List String → String
join [] = ""
join (s ∷ chunks) = concat s (join chunks)

last_index_lt : (separator s : String) (n : ℕ) → last_index separator s ≡ some n → n < text_length s
unfolding last_index
last_index_lt separator String.[] n h = cc
last_index_lt separator (String.◌∷◌ c s) n h =
    go (last_index separator s) (last_index_lt separator s) refl h
  where
    go :
        (o : Option ℕ)
        → ((m : ℕ) → last_index separator s ≡ some m → m < text_length s)
        → last_index separator s ≡ o
        → later_or (has_prefix (String.◌∷◌ c s) separator) o ≡ some n
        → n < suc (text_length s)
    go none ih e k = elim (Bool-cases (has_prefix (String.◌∷◌ c s) separator)) [
      | inl here ↦ omega (arith, some_inj (rw here at k))
      | inr gone ↦ absurd (nothing (rw gone at k))
    ]
      where
        nothing : none ≡ some n → ⊥
        nothing f = cc
    go (some m) ih e k = omega (arith, ih m e, some_inj k)

cut_at_pos : (max_len : ℕ) (o : Option ℕ) → 0 < max_len → 0 < cut_at max_len o
cut_at_pos max_len none h = h
cut_at_pos max_len (some zero) h = h
cut_at_pos max_len (some (suc n)) h = omega arith

split_point_pos : (max_len : ℕ) (s : String) → 0 < max_len → 0 < split_point max_len s
unfolding split_point
split_point_pos max_len s h = cut_at_pos max_len _ h

cut_at_le :
    (max_len : ℕ) (o : Option ℕ) → ((n : ℕ) → o ≡ some n → n ≤ max_len) → cut_at max_len o ≤ max_len
cut_at_le max_len none h = omega arith
cut_at_le max_len (some zero) h = omega arith
cut_at_le max_len (some (suc n)) h = h (suc n) refl

or_index_le :
    (max_len : ℕ) (o p : Option ℕ)
    → ((n : ℕ) → o ≡ some n → n ≤ max_len)
    → ((n : ℕ) → p ≡ some n → n ≤ max_len)
    → (n : ℕ) → or_index o p ≡ some n
    → n ≤ max_len
or_index_le max_len none p h k = k
or_index_le max_len (some m) p h k = h

split_point_le : (max_len : ℕ) (s : String) → split_point max_len s ≤ max_len
unfolding split_point
split_point_le max_len s = cut_at_le max_len _ (
    or_index_le max_len _ _ (in_head "\n\n") (or_index_le max_len _ _ (in_head "\n") (in_head " ")))
  where
    in_head :
        (separator : String) (n : ℕ)
        → last_index separator (take_chars max_len s) ≡ some n
        → n ≤ max_len
    in_head separator n e =
        omega
          (arith, last_index_lt separator (take_chars max_len s) n e, length-take_chars max_len s)

-- A chunk of ASCII that is within the limit.
abbrev pub fits_in : ℕ → String → Bool
fits_in max_len s = is_ascii s && leb (byte_length s) max_len

ascii_fits :
    (max_len : ℕ) (s : String)
    → is_ascii s ≡ true
    → text_length s ≤ max_len
    → fits_in max_len s ≡ true
ascii_fits max_len s h k = ground (arith, h, k, byte_length-ascii s h)

-- What a run of the loop gives.
pub Chunked : ℕ → String → Option (List String) → Type 0
Chunked max_len body o =
    (chunks : List String) × (o ≡ some chunks)
    × (all (fits_in max_len) chunks ≡ true)
    × (visible (join chunks) ≡ visible body)

last_chunk_lem :
    (max_len : ℕ) (s : String)
    → is_ascii s ≡ true
    → leb (text_length s) max_len ≡ true
    → (all (fits_in max_len) (last_chunk s) ≡ true) × (visible (join (last_chunk s)) ≡ visible s)
unfolding join
last_chunk_lem max_len String.[] a h = (refl, refl)
last_chunk_lem max_len (String.◌∷◌ c s) a h =
    let fits = ascii_fits max_len (String.◌∷◌ c s) a (ground (arith, h)) in
    (ground (arith, fits), ap visible (concat_end (String.◌∷◌ c s)))

-- The text of a chunk and of what is left after it.
kept_apart :
    (n : ℕ) (s : String) (chunks : List String)
    → visible (join chunks) ≡ visible (trim_space (drop_chars n s))
    → visible (join (trim_space (take_chars n s) ∷ chunks)) ≡ visible s
unfolding join
kept_apart n s chunks h =
    visible-concat (trim_space (take_chars n s)) (join chunks)
    ∙ ap (λ u. concat u (visible (join chunks))) (visible-trim_space (take_chars n s))
    ∙ ap (concat (visible (take_chars n s))) (h ∙ visible-trim_space (drop_chars n s))
    ∙ sym (visible-concat (take_chars n s) (drop_chars n s))
    ∙ ap visible (take-drop n s)

chunks_of_lem :
    (fuel max_len : ℕ) (s : String)
    → 0 < max_len
    → text_length s < fuel
    → is_ascii s ≡ true
    → Chunked max_len s (chunks_of fuel max_len s)
unfolding chunks_of Chunked
chunks_of_lem zero max_len s pos enough a = absurd (omega (arith, enough))
chunks_of_lem (suc fuel) max_len s pos enough a = elim (Bool-cases (leb (text_length s) max_len)) [
  | inl fits ↦
      let (short, kept) = last_chunk_lem max_len s a fits in
      (last_chunk s, rw fits refl, short, kept)
  | inr long ↦
      let n = split_point max_len s in
      let (chunks, result, short, kept) =
        chunks_of_lem fuel max_len (trim_space (drop_chars n s)) pos
          (ground (
            arith,
            length-trim_space (drop_chars n s),
            length-drop_chars n s,
            split_point_pos max_len s pos,
          ))
          (is_ascii-rest n s a) in
      let first_fits = ascii_fits max_len (trim_space (take_chars n s)) (is_ascii-head n s a) (
        omega (
          arith,
          length-trim_space (take_chars n s),
          length-take_chars n s,
          split_point_le max_len s,
        )) in
      (
        trim_space (take_chars n s) ∷ chunks,
        rw (long, result) refl,
        ground (arith, first_fits, short),
        kept_apart n s chunks kept,
      )
]

-- For a positive limit and an ASCII text, and with fuel above the length of the text, the loop
-- ends; no chunk has more bytes than the limit; and the chunks in their order hold all characters
-- of the text that are no spaces.
pub split_long_message_lem :
    (fuel max_len : ℕ) (body : String)
    → 0 < max_len
    → text_length body < fuel
    → is_ascii body ≡ true
    → (chunks : List String) × (split_long_message fuel max_len body ≡ some chunks)
      × (all (fits_in max_len) chunks ≡ true)
      × (visible (join chunks) ≡ visible body)
unfolding split_long_message Chunked join
split_long_message_lem fuel max_len body pos enough a =
    elim (Bool-cases (leb (text_length body) max_len)) [
      | inl fits ↦
          let whole = ascii_fits max_len body a (ground (arith, fits)) in
          (body ∷ [], rw fits refl, ground (arith, whole), ap visible (concat_end body))
      | inr long ↦
          let (chunks, result, short, kept) = chunks_of_lem fuel max_len body pos enough a in
          (chunks, rw (long, result) refl, short, kept)
    ]
