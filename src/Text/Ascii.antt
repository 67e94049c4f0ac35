-- ===== src/Text/Ascii.antt =====
-- Texts in which every character is one byte: what the functions on characters are on bytes.
use Prim.Native.Char.{Char, code, len_utf8, len_utf8_def, width}
use Prim.Native.String.len
use Prim.Native.Nat.{Ordering, compare as compare_ℕ}
use native.Mathlib.Omega.{compare-eq, compare-gt}
use starfire_agent_team.Prelude.{
  ℕ, zero, suc, ◌≡◌, refl, ◌∙◌, String, true, arith, ltb, Bool-cases, inl, inr,
}
use starfire_agent_team.Text.{
  is_ascii, byte_length, text_length, take_chars, drop_chars, is_space, cons_unless_blank,
  trim_left, trim_right, trim_space,
}

is_ascii-take_chars : (n : ℕ) (s : String) → is_ascii s ≡ true → is_ascii (take_chars n s) ≡ true
unfolding is_ascii take_chars
is_ascii-take_chars zero s h = refl
is_ascii-take_chars (suc n) String.[] h = refl
is_ascii-take_chars (suc n) (String.◌∷◌ c s) h = ground (arith, h, is_ascii-take_chars n s)

is_ascii-drop_chars : (n : ℕ) (s : String) → is_ascii s ≡ true → is_ascii (drop_chars n s) ≡ true
unfolding is_ascii drop_chars
is_ascii-drop_chars zero s h = h
is_ascii-drop_chars (suc n) String.[] h = refl
is_ascii-drop_chars (suc n) (String.◌∷◌ c s) h = ground (arith, h, is_ascii-drop_chars n s)

is_ascii-trim_left : (s : String) → is_ascii s ≡ true → is_ascii (trim_left s) ≡ true
unfolding is_ascii trim_left
is_ascii-trim_left String.[] h = refl
is_ascii-trim_left (String.◌∷◌ c s) h = elim (Bool-cases (is_space (code c))) [
  | inl e ↦ rw e (is_ascii-trim_left s (ground (arith, h)))
  | inr e ↦ rw e h
]

is_ascii-cons_unless_blank :
    (c : Char) (t : String)
    → ltb (code c) 128 ≡ true
    → is_ascii t ≡ true
    → is_ascii (cons_unless_blank c t) ≡ true
unfolding is_ascii
is_ascii-cons_unless_blank c String.[] h k = elim (Bool-cases (is_space (code c))) [
  | inl e ↦ rw e refl
  | inr e ↦ rw e (ground (arith, h))
]
is_ascii-cons_unless_blank c (String.◌∷◌ d t) h k = ground (arith, h, k)

is_ascii-trim_right : (s : String) → is_ascii s ≡ true → is_ascii (trim_right s) ≡ true
unfolding is_ascii trim_right
is_ascii-trim_right String.[] h = refl
is_ascii-trim_right (String.◌∷◌ c s) h =
    is_ascii-cons_unless_blank c (trim_right s) (ground (arith, h))
      (is_ascii-trim_right s (ground (arith, h)))

is_ascii-trim_space : (s : String) → is_ascii s ≡ true → is_ascii (trim_space s) ≡ true
unfolding trim_space
is_ascii-trim_space s h = is_ascii-trim_right (trim_left s) (is_ascii-trim_left s h)

-- A trimmed piece of an ASCII text is one.
pub is_ascii-head :
    (n : ℕ) (s : String) → is_ascii s ≡ true → is_ascii (trim_space (take_chars n s)) ≡ true
is_ascii-head n s h = is_ascii-trim_space (take_chars n s) (is_ascii-take_chars n s h)

pub is_ascii-rest :
    (n : ℕ) (s : String) → is_ascii s ≡ true → is_ascii (trim_space (drop_chars n s)) ≡ true
is_ascii-rest n s h = is_ascii-trim_space (drop_chars n s) (is_ascii-drop_chars n s h)

one_byte : (c : Char) → ltb (code c) 128 ≡ true → len_utf8 c ≡ 1
one_byte c h = (λ i. len_utf8_def c i) ∙ narrow (compare_ℕ (code c) 128) refl
  where
    narrow :
        (o : Ordering)
        → compare_ℕ (code c) 128 ≡ o
        → width o (compare_ℕ (code c) 2048) (compare_ℕ (code c) 65536) ≡ 1
    narrow Ordering.lt e = refl
    narrow Ordering.eq e = absurd (ground (arith, h, compare-eq (code c) 128 e))
    narrow Ordering.gt e = absurd (ground (arith, h, compare-gt (code c) 128 e))

pub byte_length-ascii : (s : String) → is_ascii s ≡ true → byte_length s ≡ text_length s
unfolding is_ascii
byte_length-ascii String.[] h = λ i. len.nil i
byte_length-ascii (String.◌∷◌ c s) h =
    (λ i. len.cons c s i)
    ∙ omega (arith, one_byte c (ground (arith, h)), byte_length-ascii s (ground (arith, h)))
