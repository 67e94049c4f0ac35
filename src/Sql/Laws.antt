-- ===== src/Sql/Laws.antt =====
-- Laws of the statements of Sql.
use starfire_agent_team.Prelude.{
  if◌then◌else◌, Bool-cases, inl, inr, ◌≡◌, refl, ◌++◌, ◌||◌, Bool, true, false, Option, none, some,
  List, [], ◌∷◌, arith, any, all, ltb, ◌&&◌,
}
use starfire_agent_team.Sql.{first, apply_when, update, count, delete, select}

module _ {ℓ} {A : Type ℓ} where
  abbrev pub map_option : (A → A) → Option A → Option A
  map_option f none = none
  map_option f (some r) = some (f r)

  -- A lookup whose test an update does not touch finds the updated row.
  pub first-update :
      (q p : A → Bool) (f : A → A)
      → ((r : A) → q (f r) ≡ q r)
      → (rows : List A) → first q (update p f rows) ≡ map_option (apply_when p f) (first q rows)
  unfolding first update
  first-update q p f keeps [] = refl
  first-update q p f keeps (r ∷ rows) = ground (arith, keeps r, first-update q p f keeps rows)

  -- A row that a lookup finds passes the lookup's test.
  pub first_sound : (p : A → Bool) (rows : List A) (r : A) → first p rows ≡ some r → p r ≡ true
  unfolding first
  first_sound p [] r h = cc
  first_sound p (x ∷ rows) r h = ground (arith, first_sound p rows r)

  pub count_pos : (p : A → Bool) (rows : List A) → ltb 0 (count p rows) ≡ any p rows
  unfolding count
  count_pos p [] = refl
  count_pos p (x ∷ rows) = ground (arith, count_pos p rows)

  pub any-update_none :
      (q p : A → Bool) (f : A → A)
      → ((r : A) → q (apply_when p f r) ≡ false)
      → (rows : List A) → any q (update p f rows) ≡ false
  unfolding update
  any-update_none q p f h [] = refl
  any-update_none q p f h (x ∷ rows) = ground (arith, h x, any-update_none q p f h rows)

  pub first-none_of_any : (p : A → Bool) (rows : List A) → any p rows ≡ false → first p rows ≡ none
  unfolding first
  first-none_of_any p [] h = refl
  first-none_of_any p (x ∷ rows) h = ground (arith, first-none_of_any p rows)

  pub first-append :
      (q : A → Bool) (rows more : List A) (r : A)
      → first q rows ≡ some r
      → first q (rows ++ more) ≡ some r
  unfolding first
  first-append q [] more r h = cc
  first-append q (x ∷ rows) more r h = ground (arith, first-append q rows more r)

  -- An update that does not touch the row that is found leaves it in place.
  pub first-update_other :
      (q p : A → Bool) (f : A → A)
      → ((r : A) → q (f r) ≡ q r)
      → (rows : List A) (r : A) → first q rows ≡ some r
      → p r ≡ false
      → first q (update p f rows) ≡ some r
  first-update_other q p f keeps rows r found other =
      rw (first-update q p f keeps rows, found, other) refl

  pub any-append :
      (q : A → Bool) (rows more : List A) → any q (rows ++ more) ≡ (any q rows || any q more)
  any-append q [] more = refl
  any-append q (x ∷ rows) more = ground (arith, any-append q rows more)

  pub any-update :
      (q p : A → Bool) (f : A → A)
      → ((r : A) → q (f r) ≡ q r)
      → (rows : List A) → any q (update p f rows) ≡ any q rows
  unfolding update
  any-update q p f h [] = refl
  any-update q p f h (x ∷ rows) = ground (arith, h x, any-update q p f h rows)

  -- No row passes a test after an update that makes none pass it.
  pub any-update_never :
      (q p : A → Bool) (f : A → A)
      → ((r : A) → q (f r) ≡ false)
      → (rows : List A) → any q rows ≡ false
      → any q (update p f rows) ≡ false
  unfolding update
  any-update_never q p f h [] e = refl
  any-update_never q p f h (x ∷ rows) e = ground (arith, h x, any-update_never q p f h rows)

  pub first_of_any :
      (p : A → Bool) (rows : List A) → any p rows ≡ true → (r : A) × (first p rows ≡ some r)
  unfolding first
  first_of_any p [] e = absurd (ground arith)
  first_of_any p (x ∷ rows) e = elim (Bool-cases (p x)) [
    | inl here ↦ (x, rw here refl)
    | inr later ↦ let (r, found) = first_of_any p rows (ground arith) in (r, rw later found)
  ]

  pub first-append_last :
      (q : A → Bool) (rows : List A) (r : A)
      → first q (rows ++ r ∷ [])
        ≡ (elim (first q rows) [ none ↦ if q r then some r else none | some x ↦ some x ])
  unfolding first
  first-append_last q [] r = refl
  first-append_last q (x ∷ rows) r = ground (arith, first-append_last q rows r)

  pub all-append :
      (p : A → Bool) (rows : List A) (r : A)
      → all p rows ≡ true
      → p r ≡ true
      → all p (rows ++ r ∷ []) ≡ true
  all-append p [] r h e = ground arith
  all-append p (x ∷ rows) r h e = ground (arith, all-append p rows r)

  pub first_of_all :
      (p q : A → Bool) (rows : List A) (r : A)
      → all q rows ≡ true
      → first p rows ≡ some r
      → q r ≡ true
  unfolding first
  first_of_all p q [] r h e = absurd cc
  first_of_all p q (x ∷ rows) r h e = ground (arith, h, e, first_of_all p q rows r)

  pub all-update :
      (p q : A → Bool) (f : A → A) (rows : List A)
      → ((r : A) → p r ≡ true → p (f r) ≡ true)
      → all p rows ≡ true
      → all p (update q f rows) ≡ true
  unfolding update
  all-update p q f [] keeps h = refl
  all-update p q f (r ∷ rows) keeps h = ground (arith, keeps r, all-update p q f rows keeps)

  pub all-delete :
      (p q : A → Bool) (rows : List A) → all p rows ≡ true → all p (delete q rows) ≡ true
  unfolding delete
  all-delete p q [] h = refl
  all-delete p q (r ∷ rows) h = ground (arith, all-delete p q rows)

  pub any-select :
      (p q : A → Bool) (rows : List A) → any p (select q rows) ≡ any (λ r. q r && p r) rows
  unfolding select
  any-select p q [] = refl
  any-select p q (r ∷ rows) = ground (arith, any-select p q rows)
