-- ===== src/Text.antt =====
-- What the platform uses of Go's `strings` package, over native texts.
pub mod Laws
pub mod Lines
pub mod Ascii
use Prim.Native.Char.{Char, code}
use Prim.Native.String.{len}
use text.Mathlib.Text.{starts_with}
use starfire_agent_team.Prelude.{
  concat, ℕ, zero, suc, String, Bool, true, false, ◌&&◌, ◌||◌, List, [], ◌∷◌, leb, eqb, ltb,
  if◌then◌else◌,
}

abbrev pub is_empty : String → Bool
is_empty String.[] = true
is_empty (String.◌∷◌ c s) = false

-- unicode.IsSpace
unfoldable pub is_space : ℕ → Bool
is_space c =
    (leb 9 c && leb c 13)
    || eqb c 32
    || eqb c 0x85
    || eqb c 0xa0
    || eqb c 0x1680
    || (leb 0x2000 c && leb c 0x200a)
    || eqb c 0x2028
    || eqb c 0x2029
    || eqb c 0x202f
    || eqb c 0x205f
    || eqb c 0x3000

unfoldable pub trim_left : String → String
trim_left String.[] = ""
trim_left (String.◌∷◌ c s) =
    let rest = trim_left s in if is_space (code c) then rest else String.◌∷◌ c s

abbrev pub cons_unless_blank : Char → String → String
cons_unless_blank c String.[] = if is_space (code c) then "" else String.◌∷◌ c ""
cons_unless_blank c (String.◌∷◌ d s) = String.◌∷◌ c (String.◌∷◌ d s)

unfoldable pub trim_right : String → String
trim_right String.[] = ""
trim_right (String.◌∷◌ c s) = cons_unless_blank c (trim_right s)

-- strings.TrimSpace
unfoldable pub trim_space : String → String
unfolding trim_left trim_right is_space
trim_space s = trim_right (trim_left s)

-- s[n:], over ASCII
unfoldable pub drop_chars : ℕ → String → String
drop_chars zero s = s
drop_chars (suc n) String.[] = ""
drop_chars (suc n) (String.◌∷◌ c s) = drop_chars n s

-- s[:n], over ASCII; a text that is shorter is returned whole
unfoldable pub take_chars : ℕ → String → String
take_chars zero s = ""
take_chars (suc n) String.[] = ""
take_chars (suc n) (String.◌∷◌ c s) = String.◌∷◌ c (take_chars n s)

-- len(s), over ASCII
abbrev pub text_length : String → ℕ
text_length String.[] = 0
text_length (String.◌∷◌ c s) = suc (text_length s)

-- len(s): the bytes of the text in UTF-8
abbrev pub byte_length : String → ℕ
byte_length s = len s

-- Every character is one byte.
unfoldable pub is_ascii : String → Bool
is_ascii String.[] = true
is_ascii (String.◌∷◌ c s) = ltb (code c) 128 && is_ascii s

-- strings.HasPrefix
abbrev pub has_prefix : String → String → Bool
has_prefix s p = starts_with s p

-- strings.Contains
unfoldable pub contains : String → String → Bool
contains String.[] p = is_empty p
contains (String.◌∷◌ c s) p = has_prefix (String.◌∷◌ c s) p || contains s p

-- strings.ContainsRune, for one character given by its code
unfoldable pub contains_char : ℕ → String → Bool
contains_char k String.[] = false
contains_char k (String.◌∷◌ c s) = eqb (code c) k || contains_char k s

-- strings.Split(s, "\n"): the line so far is `cur`
lines_from : String → String → List String
lines_from cur String.[] = cur ∷ []
lines_from cur (String.◌∷◌ c s) =
    let closed = cur ∷ lines_from "" s in
    let longer = lines_from (concat cur (String.◌∷◌ c "")) s in
    (if eqb (code c) 10 then closed else longer)

unfoldable pub split_lines : String → List String
unfolding lines_from
split_lines s = lines_from "" s

-- strings.Replace(s, old, new, 1), for an `old` that is not empty
unfoldable pub replace_first : String → String → String → String
replace_first old new String.[] = ""
replace_first old new (String.◌∷◌ c s) =
    let rest = replace_first old new s in
    (if has_prefix (String.◌∷◌ c s) old
      then concat new (drop_chars (text_length old) (String.◌∷◌ c s))
      else String.◌∷◌ c rest)

abbrev cons_head : Char → List String → List String
cons_head c [] = String.◌∷◌ c "" ∷ []
cons_head c (s ∷ pieces) = String.◌∷◌ c s ∷ pieces

-- strings.Split at one character, given by its code
unfoldable pub split_char : ℕ → String → List String
split_char k String.[] = "" ∷ []
split_char k (String.◌∷◌ c s) =
    let rest = split_char k s in if eqb (code c) k then "" ∷ rest else cons_head c rest
