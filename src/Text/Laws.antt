-- ===== src/Text/Laws.antt =====
-- Laws of texts.
use Prim.Native.Char.{Char, code}
use Prim.Native.String.append.{nil, cons}
use starfire_agent_team.Prelude.{
  ℕ, zero, suc, ◌-◌, ◌≤◌, ◌≡◌, refl, ◌∙◌, ap, sym, String, arith, concat, if◌then◌else◌, Bool-cases,
  inl, inr,
}
use starfire_agent_team.Text.{
  is_space, cons_unless_blank, trim_left, trim_right, trim_space, take_chars, drop_chars,
  text_length,
}

pub concat_nil : (t : String) → concat "" t ≡ t
concat_nil t = λ i. nil t i

pub concat_cons : (c : Char) (s t : String) → concat (String.◌∷◌ c s) t ≡ String.◌∷◌ c (concat s t)
concat_cons c s t = λ i. cons c s t i

pub concat_end : (s : String) → concat s "" ≡ s
concat_end String.[] = concat_nil ""
concat_end (String.◌∷◌ c s) = concat_cons c s "" ∙ ap (String.◌∷◌ c) (concat_end s)

-- The text without its spaces.
unfoldable pub visible : String → String
visible String.[] = ""
visible (String.◌∷◌ c s) =
    let rest = visible s in if is_space (code c) then rest else String.◌∷◌ c rest

pub visible-concat : (s t : String) → visible (concat s t) ≡ concat (visible s) (visible t)
unfolding visible
visible-concat String.[] t = ap visible (concat_nil t) ∙ sym (concat_nil (visible t))
visible-concat (String.◌∷◌ c s) t =
    ap visible (concat_cons c s t) ∙ elim (Bool-cases (is_space (code c))) [
      | inl e ↦ rw e (visible-concat s t)
      | inr e ↦
          rw e
            (ap (String.◌∷◌ c) (visible-concat s t) ∙ sym (concat_cons c (visible s) (visible t)))
    ]

pub visible-trim_left : (s : String) → visible (trim_left s) ≡ visible s
unfolding visible trim_left
visible-trim_left String.[] = refl
visible-trim_left (String.◌∷◌ c s) = elim (Bool-cases (is_space (code c))) [
  | inl e ↦ rw e (visible-trim_left s)
  | inr e ↦ rw e (rw e refl)
]

visible-cons_unless_blank :
    (c : Char) (t : String) → visible (cons_unless_blank c t) ≡ visible (String.◌∷◌ c t)
unfolding visible
visible-cons_unless_blank c String.[] = elim (Bool-cases (is_space (code c))) [
  | inl e ↦ rw e refl
  | inr e ↦ rw e (rw e refl)
]
visible-cons_unless_blank c (String.◌∷◌ d t) = refl

pub visible-trim_right : (s : String) → visible (trim_right s) ≡ visible s
unfolding visible trim_right
visible-trim_right String.[] = refl
visible-trim_right (String.◌∷◌ c s) =
    visible-cons_unless_blank c (trim_right s) ∙ elim (Bool-cases (is_space (code c))) [
      | inl e ↦ rw e (visible-trim_right s)
      | inr e ↦ rw e (ap (String.◌∷◌ c) (visible-trim_right s))
    ]

pub visible-trim_space : (s : String) → visible (trim_space s) ≡ visible s
unfolding trim_space
visible-trim_space s = visible-trim_right (trim_left s) ∙ visible-trim_left s

pub take-drop : (n : ℕ) (s : String) → concat (take_chars n s) (drop_chars n s) ≡ s
unfolding take_chars drop_chars
take-drop zero s = concat_nil s
take-drop (suc n) String.[] = concat_nil ""
take-drop (suc n) (String.◌∷◌ c s) =
    concat_cons c (take_chars n s) (drop_chars n s) ∙ ap (String.◌∷◌ c) (take-drop n s)

pub length-take_chars : (n : ℕ) (s : String) → text_length (take_chars n s) ≤ n
unfolding take_chars
length-take_chars zero s = omega arith
length-take_chars (suc n) String.[] = omega arith
length-take_chars (suc n) (String.◌∷◌ c s) = omega (arith, length-take_chars n s)

pub length-drop_chars : (n : ℕ) (s : String) → text_length (drop_chars n s) ≡ text_length s - n
unfolding drop_chars
length-drop_chars zero s = omega arith
length-drop_chars (suc n) String.[] = omega arith
length-drop_chars (suc n) (String.◌∷◌ c s) = omega (arith, length-drop_chars n s)

length-trim_left : (s : String) → text_length (trim_left s) ≤ text_length s
unfolding trim_left
length-trim_left String.[] = omega arith
length-trim_left (String.◌∷◌ c s) = ground (arith, length-trim_left s)

length-cons_unless_blank :
    (c : Char) (t : String) → text_length (cons_unless_blank c t) ≤ suc (text_length t)
length-cons_unless_blank c String.[] = elim (Bool-cases (is_space (code c))) [
  | inl e ↦ rw e (omega arith)
  | inr e ↦ rw e (omega arith)
]
length-cons_unless_blank c (String.◌∷◌ d t) = omega arith

length-trim_right : (s : String) → text_length (trim_right s) ≤ text_length s
unfolding trim_right
length-trim_right String.[] = omega arith
length-trim_right (String.◌∷◌ c s) =
    omega (arith, length-cons_unless_blank c (trim_right s), length-trim_right s)

pub length-trim_space : (s : String) → text_length (trim_space s) ≤ text_length s
unfolding trim_space
length-trim_space s = omega (arith, length-trim_right (trim_left s), length-trim_left s)
