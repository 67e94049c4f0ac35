-- ===== src/KeyMemory/Laws.antt =====
-- What is read back from the keys.
use starfire_agent_team.Prelude.{
  ℕ, ◌+◌, ◌*◌, ◌≡◌, ◌≤◌, refl, String, Bool, true, false, ◌&&◌, Option, none, some, List, [], ◌∷◌,
  arith, any, if◌then◌else◌, eq_iff, eq_refl, leb, ◌==◌, Bool-cases, inl, inr,
}
use starfire_agent_team.Sql.{first, update}
use starfire_agent_team.Sql.Laws.{first-append_last}
use starfire_agent_team.World.{World}
use starfire_agent_team.KeyMemory.{
  Row, SetBody, Entry, Answer, entry, not_found, Call, get_row, at_key, alive, second, expiry,
  live_at_key, get, upsert_row, written, store_value, set, answer_of,
}

-- The longest time to live, in seconds, whose nanoseconds fit an int64.
abbrev pub max_ttl : ℕ
max_ttl = 9223372036

expiry_small : (now n : ℕ) → n ≤ max_ttl → expiry now (some n) ≡ some (now + n * second)
unfolding expiry
expiry_small now n h = ground arith

keep_others :
    (i k j l : String) (r : Row) → (at_key j l r && at_key i k r) ≡ true → (j == i && l == k) ≡ true
keep_others i k j l r h = ground (
  arith,
  eq_iff r.workspace_id j,
  eq_iff r.workspace_id i,
  eq_iff r.key l,
  eq_iff r.key k,
  eq_iff j i,
  eq_iff l k,
)

first-written_other :
    (now t : ℕ) (i k j l v : String) (e : Option ℕ) (rows : List Row)
    → (j == i && l == k) ≡ false
    → first (live_at_key t j l) (update (at_key i k) (written now i v e) rows)
      ≡ first (live_at_key t j l) rows
unfolding first update written
first-written_other now t i k j l v e [] apart = refl
first-written_other now t i k j l v e (r ∷ rows) apart =
    ground (arith, first-written_other now t i k j l v e rows, keep_others i k j l r)

abbrev pub written_entry : ℕ → String → String → Option ℕ → Entry
written_entry now k v e = record { key = k; value = v; expires_at = e; updated_at = now }

-- What a key shows that was last written with this value and expiry.
abbrev pub shows : ℕ → ℕ → String → String → Option ℕ → Answer
shows now t k v e = if alive t e then entry (written_entry now k v e) else not_found

first-written :
    (now t : ℕ) (i k v : String) (e : Option ℕ) (rows : List Row)
    → any (at_key i k) rows ≡ true
    → answer_of (first (live_at_key t i k) (update (at_key i k) (written now i v e) rows))
      ≡ shows now t k v e
unfolding first update written
first-written now t i k v e [] there = cc
first-written now t i k v e (r ∷ rows) there =
    ground (arith, first-written now t i k v e rows, expired_all now t i k v e rows, eq_iff r.key k)
  where
    expired_all :
        (now t : ℕ) (i k v : String) (e : Option ℕ) (rows : List Row)
        → alive t e ≡ false
        → first (live_at_key t i k) (update (at_key i k) (written now i v e) rows) ≡ none
    expired_all now t i k v e [] dead = refl
    expired_all now t i k v e (r ∷ rows) dead = ground (arith, expired_all now t i k v e rows)

first-absent :
    (t : ℕ) (i k : String) (rows : List Row)
    → any (at_key i k) rows ≡ false
    → first (live_at_key t i k) rows ≡ none
unfolding first
first-absent t i k [] h = refl
first-absent t i k (r ∷ rows) h = ground (arith, first-absent t i k rows)

first-upsert_same :
    (now t : ℕ) (i k v : String) (e : Option ℕ) (rows : List Row)
    → answer_of (first (live_at_key t i k) (upsert_row now i k v e rows)) ≡ shows now t k v e
unfolding upsert_row
first-upsert_same now t i k v e rows = elim (Bool-cases (any (at_key i k) rows)) [
  | inl there ↦ rw there (first-written now t i k v e rows there)
  | inr absent ↦
      rw
        (
          absent,
          first-append_last (live_at_key t i k) rows _,
          first-absent t i k rows absent,
          eq_refl i,
          eq_refl k,
        )
        (ground arith)
]

first-upsert_other :
    (now t : ℕ) (i k j l v : String) (e : Option ℕ) (rows : List Row)
    → (j == i && l == k) ≡ false
    → first (live_at_key t j l) (upsert_row now i k v e rows) ≡ first (live_at_key t j l) rows
unfolding upsert_row
first-upsert_other now t i k j l v e rows apart = elim (Bool-cases (any (at_key i k) rows)) [
  | inl there ↦ rw there (first-written_other now t i k j l v e rows apart)
  | inr absent ↦
      rw (absent, first-append_last (live_at_key t j l) rows _)
        (ground (arith, eq_iff i j, eq_iff k l, eq_iff j i, eq_iff l k))
]

first-upsert_row :
    (now t : ℕ) (i k j l v : String) (e : Option ℕ) (rows : List Row)
    → answer_of (first (live_at_key t j l) (upsert_row now i k v e rows))
      ≡ (if j == i && l == k then shows now t k v e else answer_of (first (live_at_key t j l) rows))
first-upsert_row now t i k j l v e rows = elim (Bool-cases (j == i && l == k)) [
  | inl same ↦
      rw (same, (eq_iff j i).0 (ground arith), (eq_iff l k).0 (ground arith))
        (first-upsert_same now t i k v e rows)
  | inr apart ↦ rw (apart, first-upsert_other now t i k j l v e rows apart) refl
]

rows-set :
    (fails : Call → Bool) (jsonb : String → Option String) (now : ℕ) (i : String) (b : SetBody)
    (w : World) (rows : List Row) (v : String)
    → (set fails jsonb now i (some b) w rows).1.code ≡ 200
    → jsonb b.value ≡ some v
    → (set fails jsonb now i (some b) w rows).0
      ≡ upsert_row now i b.key v (expiry now b.ttl_seconds) rows
unfolding set store_value
rows-set fails jsonb now i b w rows v ok e = ground arith

-- No time to live, or one whose nanoseconds fit an int64.
abbrev pub fits : Option ℕ → Bool
fits none = true
fits (some n) = leb n max_ttl

abbrev pub deadline : ℕ → Option ℕ → Option ℕ
deadline now none = none
deadline now (some n) = some (now + n * second)

expiry-fits : (now : ℕ) (ttl : Option ℕ) → fits ttl ≡ true → expiry now ttl ≡ deadline now ttl
unfolding expiry
expiry-fits now none h = refl
expiry-fits now (some n) h = expiry_small now n (ground arith)

-- After a value is stored under a key, with no time to live or one of at most 9223372036 seconds,
-- the key reads as the stored value until that time is over, and as missing from then on; every
-- other key, and the same key of another workspace, reads as before.
pub get-set :
    (fails later_fails : Call → Bool) (jsonb : String → Option String) (now t : ℕ) (i j l : String)
    (b : SetBody) (w : World) (rows : List Row) (v : String)
    → (set fails jsonb now i (some b) w rows).1.code ≡ 200
    → jsonb b.value ≡ some v
    → fits b.ttl_seconds ≡ true
    → later_fails get_row ≡ false
    → get later_fails t j l (set fails jsonb now i (some b) w rows).0 ≡ (
        if j == i && l == b.key
        then shows now t b.key v (deadline now b.ttl_seconds)
        else get later_fails t j l rows)
unfolding get
get-set fails later_fails jsonb now t i j l b w rows v ok e small answers =
    rw (rows-set fails jsonb now i b w rows v ok e, expiry-fits now b.ttl_seconds small, answers)
      (first-upsert_row now t i b.key j l v (deadline now b.ttl_seconds) rows)
