-- ===== src/Plugins/Sources.antt =====
-- The normalized form of a source is read back.
use Prim.Native.Char.{Char, code}
use text.Mathlib.TextPositions.{starts_with-append}
use starfire_agent_team.Prelude.{
  subst, some_inj, ◌≡◌, refl, ◌∙◌, ap, String, Bool, true, false, ◌&&◌, not, Option, none, some,
  arith, if◌then◌else◌, Bool-cases, Option-cases, inl, inr, eqb, concat,
}
use starfire_agent_team.Text.Laws.{concat_nil, concat_cons}
use starfire_agent_team.Text.{
  is_empty, is_space, cons_unless_blank, trim_left, trim_right, trim_space, contains_char,
  has_prefix, drop_chars,
}
use starfire_agent_team.Plugins.{
  Source, raw, is_letter, is_scheme_char, scan, cons_first, match_scheme, on_one_line, source_of,
  parse_source, all_chars,
}

abbrev first_set : String → Bool
first_set String.[] = false
first_set (String.◌∷◌ c s) = not (is_space (code c))

-- The last character is no space; there need not be one.
last_set : String → Bool
last_set String.[] = true
last_set (String.◌∷◌ c s) =
    let rest = last_set s in if is_empty s then not (is_space (code c)) else rest

last_set-cons_unless_blank :
    (c : Char) (t : String) → last_set t ≡ true → last_set (cons_unless_blank c t) ≡ true
unfolding last_set
last_set-cons_unless_blank c String.[] h = elim (Bool-cases (is_space (code c))) [
  | inl e ↦ rw e refl
  | inr e ↦ rw e (rw e refl)
]
last_set-cons_unless_blank c (String.◌∷◌ d t) h = h

last_set-trim_right : (s : String) → last_set (trim_right s) ≡ true
unfolding last_set trim_right
last_set-trim_right String.[] = refl
last_set-trim_right (String.◌∷◌ c s) =
    last_set-cons_unless_blank c (trim_right s) (last_set-trim_right s)

trim_right_id : (s : String) → last_set s ≡ true → trim_right s ≡ s
unfolding last_set trim_right
trim_right_id String.[] h = refl
trim_right_id (String.◌∷◌ c String.[]) h = ground arith
trim_right_id (String.◌∷◌ c (String.◌∷◌ d s)) h =
    ap (cons_unless_blank c) (trim_right_id (String.◌∷◌ d s) h)

last_set-concat : (s t : String) → is_empty t ≡ false → last_set (concat s t) ≡ last_set t
unfolding last_set
last_set-concat String.[] t h = ap last_set (concat_nil t)
last_set-concat (String.◌∷◌ c s) t h =
    ap last_set (concat_cons c s t) ∙ more (concat s t) (filled s t h) ∙ last_set-concat s t h
  where
    more : (u : String) → is_empty u ≡ false → last_set (String.◌∷◌ c u) ≡ last_set u
    more u e = rw e refl

    filled : (u v : String) → is_empty v ≡ false → is_empty (concat u v) ≡ false
    filled String.[] v e = ap is_empty (concat_nil v) ∙ e
    filled (String.◌∷◌ d u) v e = ap is_empty (concat_cons d u v)

concat_three :
    (a b c : Char) (t : String)
    → concat (String.◌∷◌ a (String.◌∷◌ b (String.◌∷◌ c String.[]))) t
      ≡ String.◌∷◌ a (String.◌∷◌ b (String.◌∷◌ c t))
concat_three a b c t =
    concat_cons a _ t
    ∙ ap (String.◌∷◌ a) (
        concat_cons b _ t
        ∙ ap (String.◌∷◌ b) (concat_cons c _ t ∙ ap (String.◌∷◌ c) (concat_nil t)))

concat_two :
    (a b : Char) (t : String)
    → concat (String.◌∷◌ a (String.◌∷◌ b String.[])) t ≡ String.◌∷◌ a (String.◌∷◌ b t)
concat_two a b t =
    concat_cons a _ t ∙ ap (String.◌∷◌ a) (concat_cons b _ t ∙ ap (String.◌∷◌ b) (concat_nil t))

scan_slashes :
    (t : String) → scan (String.◌∷◌ ":" (String.◌∷◌ "/" (String.◌∷◌ "/" t))) ≡ some ("", t)
unfolding scan drop_chars
scan_slashes t =
    rw (subst (λ u. has_prefix u "//" ≡ true) (concat_two "/" "/" t) (starts_with-append "//" t))
      refl

colon_slashes : (t : String) → scan (concat "://" t) ≡ some ("", t)
colon_slashes t = ap scan (concat_three ":" "/" "/" t) ∙ scan_slashes t

scan_step :
    (c : Char) (u : String) (p : String × String)
    → is_scheme_char (code c) ≡ true
    → scan u ≡ some p
    → scan (String.◌∷◌ c u) ≡ some (String.◌∷◌ c p.0, p.1)
unfolding scan
scan_step c u p h e = rw (h, e) refl

scan-concat :
    (s t : String)
    → all_chars is_scheme_char s ≡ true
    → scan (concat s (concat "://" t)) ≡ some (s, t)
scan-concat String.[] t h = ap scan (concat_nil (concat "://" t)) ∙ colon_slashes t
scan-concat (String.◌∷◌ c s) t h =
    ap scan (concat_cons c s (concat "://" t))
    ∙ scan_step c (concat s (concat "://" t)) (s, t) (ground arith) (scan-concat s t (ground arith))

scan_sound :
    (s : String) (p : String × String) → scan s ≡ some p → all_chars is_scheme_char p.0 ≡ true
unfolding scan
scan_sound String.[] p h = cc
scan_sound (String.◌∷◌ c s) p h = elim (Bool-cases (is_scheme_char (code c))) [
  | inl e ↦ elim (Option-cases (scan s)) [
    | inl n ↦ absurd (none_here (rw (e, n) at h))
    | inr (q, k) ↦ longer q (scan_sound s q k) e (some_inj (rw (e, k) at h))
  ]
  | inr e ↦ ended p (rw e at h)
]
  where
    none_here : none ≡ some p → ⊥
    none_here k = cc

    longer :
        (q : String × String)
        → all_chars is_scheme_char q.0 ≡ true
        → is_scheme_char (code c) ≡ true
        → (String.◌∷◌ c q.0, q.1) ≡ p
        → all_chars is_scheme_char p.0 ≡ true
    longer q good e k = subst (λ r. all_chars is_scheme_char r.0 ≡ true) k (rw (e, good) refl)

    ended :
        (r : String × String)
        → (if eqb (code c) 58 && has_prefix s "//" then some ("", drop_chars 2 s) else none)
          ≡ some r
        → all_chars is_scheme_char r.0 ≡ true
    ended r k = elim (Bool-cases (eqb (code c) 58 && has_prefix s "//")) [
      | inl e ↦ subst (λ u. all_chars is_scheme_char u.0 ≡ true) (some_inj (rw e at k)) refl
      | inr e ↦ absurd (nothing (rw e at k))
    ]
      where
        nothing : none ≡ some r → ⊥
        nothing f = cc

first_set-trim_left : (s : String) → is_empty (trim_left s) ≡ false → first_set (trim_left s) ≡ true
unfolding trim_left
first_set-trim_left String.[] h = cc
first_set-trim_left (String.◌∷◌ c s) h = elim (Bool-cases (is_space (code c))) [
  | inl e ↦ rw e (first_set-trim_left s (rw e at h))
  | inr e ↦ rw e (rw e refl)
]

first_set-trim_right :
    (s : String) → is_empty (trim_right s) ≡ false → first_set (trim_right s) ≡ first_set s
unfolding trim_right
first_set-trim_right String.[] h = cc
first_set-trim_right (String.◌∷◌ c s) h = go (trim_right s) h
  where
    go :
        (t : String)
        → is_empty (cons_unless_blank c t) ≡ false
        → first_set (cons_unless_blank c t) ≡ not (is_space (code c))
    go String.[] k = elim (Bool-cases (is_space (code c))) [
      | inl e ↦ absurd (blank (rw e at k))
      | inr e ↦ rw e (rw e refl)
    ]
      where
        blank : true ≡ false → ⊥
        blank f = cc
    go (String.◌∷◌ d t) k = refl

trim_left_id : (s : String) → first_set s ≡ true → trim_left s ≡ s
unfolding trim_left
trim_left_id String.[] h = refl
trim_left_id (String.◌∷◌ c s) h = ground arith

trim_space_id : (s : String) → first_set s ≡ true → last_set s ≡ true → trim_space s ≡ s
unfolding trim_space
trim_space_id s first last = ap trim_right (trim_left_id s first) ∙ trim_right_id s last

filled_left : (s : String) → is_empty (trim_right s) ≡ false → is_empty s ≡ false
unfolding trim_right
filled_left String.[] h = h
filled_left (String.◌∷◌ c s) h = refl

first_set-trim_space :
    (s : String) → is_empty (trim_space s) ≡ false → first_set (trim_space s) ≡ true
unfolding trim_space
first_set-trim_space s h =
    first_set-trim_right (trim_left s) h ∙ first_set-trim_left s (filled_left (trim_left s) h)

last_set-trim_space : (s : String) → last_set (trim_space s) ≡ true
unfolding trim_space
last_set-trim_space s = last_set-trim_right (trim_left s)

abbrev starts_letter : String → Bool
starts_letter String.[] = false
starts_letter (String.◌∷◌ c s) = is_letter (code c)

letter_kept : (c : Char) → is_letter (code c) ≡ true → is_space (code c) ≡ false
unfolding is_space
letter_kept c h = ground arith

filled_of_first : (s : String) → first_set s ≡ true → is_empty s ≡ false
filled_of_first String.[] h = cc
filled_of_first (String.◌∷◌ c s) h = refl

raw_cons :
    (c : Char) (s spec : String)
    → raw (record { scheme = String.◌∷◌ c s; spec = spec })
      ≡ String.◌∷◌ c (concat s (concat "://" spec))
unfolding raw
raw_cons c s spec = concat_cons c s (concat "://" spec)

last_set-raw : (s : Source) → is_empty s.spec ≡ false → last_set (raw s) ≡ last_set s.spec
unfolding raw
last_set-raw s h =
    last_set-concat s.scheme (concat "://" s.spec) (ap is_empty (concat_three ":" "/" "/" s.spec))
    ∙ last_set-concat "://" s.spec h

match_scheme-raw :
    (c : Char) (s spec : String)
    → is_letter (code c) ≡ true
    → all_chars is_scheme_char s ≡ true
    → contains_char 10 spec ≡ false
    → match_scheme (String.◌∷◌ c (concat s (concat "://" spec))) ≡ some (String.◌∷◌ c s, spec)
unfolding match_scheme
match_scheme-raw c s spec letter good line = rw (letter, scan-concat s spec good, line) refl

parse_source-parts :
    (c : Char) (rest spec : String)
    → is_letter (code c) ≡ true
    → all_chars is_scheme_char rest ≡ true
    → first_set spec ≡ true
    → last_set spec ≡ true
    → contains_char 10 spec ≡ false
    → parse_source (raw (record { scheme = String.◌∷◌ c rest; spec = spec }))
      ≡ some (record { scheme = String.◌∷◌ c rest; spec = spec })
unfolding parse_source
parse_source-parts c rest spec letter good first last line =
    let src : Source = record { scheme = String.◌∷◌ c rest; spec = spec } in
    let filled = filled_of_first spec first in
    let e = raw_cons c rest spec in
    let trimmed =
      trim_space_id (raw src) (ap first_set e ∙ ap not (letter_kept c letter))
        (last_set-raw src filled ∙ last) in
    rw
      (
        trimmed,
        e,
        match_scheme-raw c rest spec letter good line,
        trim_space_id spec first last,
        filled,
      )
      refl

match_scheme_sound :
    (s : String) (p : String × String)
    → match_scheme s ≡ some p
    → (c : Char) × (rest : String) × (p.0 ≡ String.◌∷◌ c rest)
      × (is_letter (code c) ≡ true)
      × (all_chars is_scheme_char rest ≡ true)
unfolding match_scheme
match_scheme_sound String.[] p h = cc
match_scheme_sound (String.◌∷◌ c s) p h = elim (Bool-cases (is_letter (code c))) [
  | inl e ↦ found (scan s) refl (rw e at h) e
  | inr e ↦ absurd (nothing (rw e at h))
]
  where
    nothing : none ≡ some p → ⊥
    nothing k = cc

    found :
        (o : Option (String × String))
        → scan s ≡ o
        → on_one_line (cons_first c o) ≡ some p
        → is_letter (code c) ≡ true
        → (d : Char) × (rest : String) × (p.0 ≡ String.◌∷◌ d rest)
          × (is_letter (code d) ≡ true)
          × (all_chars is_scheme_char rest ≡ true)
    found none k f e = cc
    found (some q) k f e = (c, q.0, ground arith, e, scan_sound s q k)

-- What is parsed prints to a text that parses to it again: a bare name becomes one of the scheme
-- local, and blanks around the whole and around the part after the scheme are dropped. A name of
-- several lines is left out.
pub parse_source-raw :
    (input : String) (src : Source)
    → parse_source input ≡ some src
    → contains_char 10 src.spec ≡ false
    → parse_source (raw src) ≡ some src
unfolding parse_source
parse_source-raw input src h line = elim (Bool-cases (is_empty (trim_space input))) [
  | inl e ↦ absurd (nothing (rw e at h))
  | inr e ↦ go (match_scheme (trim_space input)) refl (rw e at h) e
]
  where
    nothing : none ≡ some src → ⊥
    nothing k = cc

    go :
        (o : Option (String × String))
        → match_scheme (trim_space input) ≡ o
        → source_of (trim_space input) o ≡ some src
        → is_empty (trim_space input) ≡ false
        → parse_source (raw src) ≡ some src
    go none k f e =
        subst (λ q. contains_char 10 q.spec ≡ false → parse_source (raw q) ≡ some q) (some_inj f)
          (parse_source-parts "l" "ocal" (trim_space input) refl refl (first_set-trim_space input e)
            (last_set-trim_space input))
          line
    go (some p) k f e = elim (Bool-cases (is_empty (trim_space p.1))) [
      | inl gone ↦ absurd (nothing (rw gone at f))
      | inr kept ↦
          let (c, rest, split, letter, good) = match_scheme_sound (trim_space input) p k in
          subst (λ q. contains_char 10 q.spec ≡ false → parse_source (raw q) ≡ some q)
            (some_inj (rw (kept, split) at f))
            (parse_source-parts c rest (trim_space p.1) letter good (first_set-trim_space p.1 kept)
              (last_set-trim_space p.1))
            line
    ]
