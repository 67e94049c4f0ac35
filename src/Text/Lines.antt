-- ===== src/Text/Lines.antt =====
-- Laws of the lines of a text, and of trimming.
use Prim.Native.Char.{Char, code}
use text.Mathlib.TextEquality.{starts_with_iff}
use starfire_agent_team.Prelude.{
  ℕ, suc, ◌≡◌, refl, ◌∙◌, ap, sym, String, Bool, true, false, ◌||◌, ◌&&◌, ◌∷◌, arith, concat,
  Bool-cases, inl, inr, eqb,
}
use starfire_agent_team.Text.{
  is_empty, is_space, cons_unless_blank, trim_left, trim_right, trim_space, drop_chars, text_length,
  contains_char, has_prefix, lines_from, split_lines,
}
use starfire_agent_team.Text.Laws.{concat_nil, concat_cons, concat_end}

pub concat_assoc : (s t u : String) → concat (concat s t) u ≡ concat s (concat t u)
concat_assoc String.[] t u = ap (λ x. concat x u) (concat_nil t) ∙ sym (concat_nil (concat t u))
concat_assoc (String.◌∷◌ c s) t u =
    ap (λ x. concat x u) (concat_cons c s t)
    ∙ concat_cons c (concat s t) u
    ∙ ap (String.◌∷◌ c) (concat_assoc s t u)
    ∙ sym (concat_cons c s (concat t u))

pub contains_char-concat :
    (k : ℕ) (s t : String) → contains_char k (concat s t) ≡ (contains_char k s || contains_char k t)
unfolding contains_char
contains_char-concat k String.[] t = ap (contains_char k) (concat_nil t)
contains_char-concat k (String.◌∷◌ c s) t =
    ap (contains_char k) (concat_cons c s t) ∙ ground (arith, contains_char-concat k s t)

-- The line so far grows by a text without a line feed.
lines_from-concat :
    (cur s t : String)
    → contains_char 10 s ≡ false
    → lines_from cur (concat s t) ≡ lines_from (concat cur s) t
unfolding lines_from contains_char
lines_from-concat cur String.[] t h =
    ap (lines_from cur) (concat_nil t) ∙ ap (λ x. lines_from x t) (sym (concat_end cur))
lines_from-concat cur (String.◌∷◌ c s) t h =
    ap (lines_from cur) (concat_cons c s t)
    ∙ rw (no_feed h) (
        lines_from-concat (concat cur (String.◌∷◌ c "")) s t (rest h)
        ∙ ap (λ x. lines_from x t) grown)
  where
    no_feed : (eqb (code c) 10 || contains_char 10 s) ≡ false → eqb (code c) 10 ≡ false
    no_feed k = ground (arith, k)

    rest : (eqb (code c) 10 || contains_char 10 s) ≡ false → contains_char 10 s ≡ false
    rest k = ground (arith, k)

    grown : concat (concat cur (String.◌∷◌ c "")) s ≡ concat cur (String.◌∷◌ c s)
    grown =
        concat_assoc cur (String.◌∷◌ c "") s
        ∙ ap (concat cur) (concat_cons c "" s ∙ ap (String.◌∷◌ c) (concat_nil s))

abbrev is_feed : String → Bool
is_feed String.[] = false
is_feed (String.◌∷◌ c s) = eqb (code c) 10 && is_empty s

lines_from-feed :
    (cur f t : String) → is_feed f ≡ true → lines_from cur (concat f t) ≡ cur ∷ lines_from "" t
unfolding lines_from
lines_from-feed cur String.[] t h = absurd cc
lines_from-feed cur (String.◌∷◌ c String.[]) t h =
    ap (lines_from cur) (concat_cons c "" t ∙ ap (String.◌∷◌ c) (concat_nil t)) ∙ rw (feed h) refl
  where
    feed : (eqb (code c) 10 && true) ≡ true → eqb (code c) 10 ≡ true
    feed k = ground (arith, k)
lines_from-feed cur (String.◌∷◌ c (String.◌∷◌ d s)) t h = absurd (ground (arith, h))

-- A line that is closed is the first one.
pub split_lines-concat :
    (s t : String)
    → contains_char 10 s ≡ false
    → split_lines (concat s (concat "\n" t)) ≡ s ∷ split_lines t
unfolding split_lines lines_from
split_lines-concat s t h =
    lines_from-concat "" s (concat "\n" t) h
    ∙ ap (λ x. lines_from x (concat "\n" t)) (concat_nil s)
    ∙ lines_from-feed s "\n" t refl

trim_right_idem : (s : String) → trim_right (trim_right s) ≡ trim_right s
unfolding trim_right
trim_right_idem String.[] = refl
trim_right_idem (String.◌∷◌ c s) = kept (trim_right s) (trim_right_idem s)
  where
    kept :
        (t : String) → trim_right t ≡ t → trim_right (cons_unless_blank c t) ≡ cons_unless_blank c t
    kept String.[] e = elim (Bool-cases (is_space (code c))) [
      | inl k ↦ rw k refl
      | inr k ↦ rw k (rw k refl)
    ]
    kept (String.◌∷◌ d t) e = ap (cons_unless_blank c) e

filled-concat : (s t : String) → is_empty t ≡ false → is_empty (concat s t) ≡ false
filled-concat String.[] t h = ap is_empty (concat_nil t) ∙ h
filled-concat (String.◌∷◌ c s) t h = ap is_empty (concat_cons c s t)

cons_filled : (c : Char) (t : String) → is_empty t ≡ false → cons_unless_blank c t ≡ String.◌∷◌ c t
cons_filled c String.[] h = absurd cc
cons_filled c (String.◌∷◌ d t) h = refl

trim_right-concat :
    (s t : String) → is_empty t ≡ false → trim_right t ≡ t → trim_right (concat s t) ≡ concat s t
unfolding trim_right
trim_right-concat String.[] t h e = ap trim_right (concat_nil t) ∙ e ∙ sym (concat_nil t)
trim_right-concat (String.◌∷◌ c s) t h e =
    ap trim_right (concat_cons c s t)
    ∙ ap (cons_unless_blank c) (trim_right-concat s t h e)
    ∙ cons_filled c (concat s t) (filled-concat s t h)
    ∙ sym (concat_cons c s t)

trim_left-blank :
    (s t : String) → is_empty (trim_left s) ≡ true → trim_left (concat s t) ≡ trim_left t
unfolding trim_left
trim_left-blank String.[] t h = ap trim_left (concat_nil t)
trim_left-blank (String.◌∷◌ c s) t h = elim (Bool-cases (is_space (code c))) [
  | inl e ↦ ap trim_left (concat_cons c s t) ∙ rw e (trim_left-blank s t (rw e at h))
  | inr e ↦ absurd (ground (arith, rw e at h))
]

-- The text begins with a character that is no blank.
abbrev pub head_code : String → ℕ
head_code String.[] = 32
head_code (String.◌∷◌ c s) = code c

trim_left_kept :
    (s t : String) → is_space (head_code s) ≡ false → trim_left (concat s t) ≡ concat s t
unfolding trim_left is_space
trim_left_kept String.[] t h = absurd cc
trim_left_kept (String.◌∷◌ c s) t h =
    ap trim_left (concat_cons c s t) ∙ rw h (sym (concat_cons c s t))

drop-concat : (s t : String) → drop_chars (text_length s) (concat s t) ≡ t
unfolding drop_chars
drop-concat String.[] t = concat_nil t
drop-concat (String.◌∷◌ c s) t =
    ap (drop_chars (suc (text_length s))) (concat_cons c s t) ∙ drop-concat s t

-- A text that is trimmed has no blanks at its end.
pub trimmed_end : (s : String) → trim_space s ≡ s → trim_right s ≡ s
unfolding trim_space
trimmed_end s e = ap trim_right (sym e) ∙ trim_right_idem (trim_left s) ∙ e

-- A trimmed text after a key that begins with no blank.
pub trim_space-key :
    (key t : String)
    → is_space (head_code key) ≡ false
    → is_empty t ≡ false
    → trim_space t ≡ t
    → trim_space (concat key t) ≡ concat key t
unfolding trim_space
trim_space-key key t h f e =
    ap trim_right (trim_left_kept key t h) ∙ trim_right-concat key t f (trimmed_end t e)

-- The value after a key that ends with blanks.
pub value_of_key :
    (key blanks t : String)
    → is_empty (trim_left blanks) ≡ true
    → trim_space t ≡ t
    → trim_space (drop_chars (text_length key) (concat (concat key blanks) t)) ≡ t
unfolding trim_space
value_of_key key blanks t h e =
    ap (λ x. trim_space (drop_chars (text_length key) x)) (concat_assoc key blanks t)
    ∙ ap trim_space (drop-concat key (concat blanks t))
    ∙ ap trim_right (trim_left-blank blanks t h)
    ∙ e

-- What a trimmed text starts with, where it begins with no blank.
head-cons_unless_blank :
    (c : Char) (t : String) → is_space (code c) ≡ false → head_code (cons_unless_blank c t) ≡ code c
head-cons_unless_blank c String.[] h = rw h refl
head-cons_unless_blank c (String.◌∷◌ d t) h = refl

head-trim_space :
    (key t : String)
    → is_space (head_code key) ≡ false
    → head_code (trim_space (concat key t)) ≡ head_code key
unfolding trim_space trim_right is_space
head-trim_space String.[] t h = absurd cc
head-trim_space (String.◌∷◌ c s) t h =
    ap (λ x. head_code (trim_right x)) (trim_left_kept (String.◌∷◌ c s) t h ∙ concat_cons c s t)
    ∙ head-cons_unless_blank c (trim_right (concat s t)) h

head-concat : (s t : String) → is_empty s ≡ false → head_code (concat s t) ≡ head_code s
head-concat String.[] t h = absurd cc
head-concat (String.◌∷◌ c s) t h = ap head_code (concat_cons c s t)

-- A line under another key does not start with the prefix.
pub other_key :
    (key t prefix : String)
    → is_space (head_code key) ≡ false
    → is_empty prefix ≡ false
    → eqb (head_code key) (head_code prefix) ≡ false
    → has_prefix (trim_space (concat key t)) prefix ≡ false
other_key key t prefix h f apart =
    elim (Bool-cases (has_prefix (trim_space (concat key t)) prefix)) [
      | inr e ↦ e
      | inl e ↦
          let (rest, same) = (starts_with_iff (trim_space (concat key t)) prefix).0 e in
          absurd (
            ground
              (arith, apart, ap head_code same, head-concat prefix rest f, head-trim_space key t h))
    ]
