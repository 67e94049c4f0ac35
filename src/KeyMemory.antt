-- ===== src/KeyMemory.antt =====
-- handlers/memory.go: values that agents store under keys, with a time to live. Times are nanoseconds;
-- `jsonb` is Postgres' cast of a JSON text, `none` for its error.
pub mod Laws
mod Tests
use starfire_agent_team.Prelude.{
  ℕ, ◌+◌, ◌-◌, ◌*◌, ◌%◌, ◌^◌, ◌≡◌, String, Bool, true, false, ◌&&◌, ◌||◌, not, Option, none, some,
  List, [], ◌∷◌, ◌++◌, if◌then◌else◌, ◌==◌, ltb, any,
}
use starfire_agent_team.Text.{is_empty}
use starfire_agent_team.Sql.{first, select, update, delete}
use starfire_agent_team.World.{World, Response, reply, error, has_id}

-- A row of `workspace_memory`.
pub record Row : Type 0 where
  pub workspace_id : String
  pub key : String
  pub value : String
  pub expires_at : Option ℕ
  pub updated_at : ℕ

-- The time to live is an int64, here as the natural number of its 64 bits.
pub record SetBody : Type 0 where
  pub key : String
  pub value : String
  pub ttl_seconds : Option ℕ

-- A MemoryEntry.
pub record Entry : Type 0 where
  pub key : String
  pub value : String
  pub expires_at : Option ℕ
  pub updated_at : ℕ

-- What Get answers: 200 with an entry, 404, 500.
pub data Answer : Type 0 where
  entry : Entry → Answer
  not_found query_failed : Answer

-- The statements of this file that can fail.
pub data Call : Type 0 where
  list_rows get_row upsert delete_row : Call

abbrev pub at_key : String → String → Row → Bool
at_key i k r = r.workspace_id == i && r.key == k

-- expires_at IS NULL OR expires_at > NOW()
abbrev pub alive : ℕ → Option ℕ → Bool
alive now none = true
alive now (some e) = ltb now e

abbrev pub second : ℕ
second = 1000000000

-- now.Add(d) for an int64 d: the past where d is negative
abbrev pub plus_int64 : ℕ → ℕ → ℕ
plus_int64 now d = if ltb d (2 ^ 63) then now + d else now - (2 ^ 64 - d)

-- time.Now().Add(time.Duration(ttl) * time.Second), with the product in 64 bits
unfoldable pub expiry : ℕ → Option ℕ → Option ℕ
expiry now none = none
expiry now (some ttl) = some (plus_int64 now (ttl * second % 2 ^ 64))

abbrev entry_of : Row → Entry
entry_of r = record {
  key = r.key;
  value = r.value;
  expires_at = r.expires_at;
  updated_at = r.updated_at;
}

abbrev answer_of : Option Row → Answer
answer_of none = not_found
answer_of (some r) = entry (entry_of r)

abbrev pub live_at_key : ℕ → String → String → Row → Bool
live_at_key now i k r = at_key i k r && alive now r.expires_at

unfoldable pub get : (Call → Bool) → ℕ → String → String → List Row → Answer
get fails now i k rows =
    if fails get_row then query_failed else answer_of (first (live_at_key now i k) rows)

-- `none` for the answer 500. ORDER BY key is left to the order of the table.
unfoldable pub list : (Call → Bool) → ℕ → String → List Row → Option (List Row)
list fails now i rows =
    if fails list_rows
    then none
    else some (select (λ r. r.workspace_id == i && alive now r.expires_at) rows)

written : ℕ → String → String → Option ℕ → Row → Row
written now i v e r = record r { value = v; expires_at = e; updated_at = now }

-- INSERT … ON CONFLICT (workspace_id, key) DO UPDATE
unfoldable pub upsert_row : ℕ → String → String → String → Option ℕ → List Row → List Row
unfolding written
upsert_row now i k v e rows =
    if any (at_key i k) rows
    then update (at_key i k) (written now i v e) rows
    else rows
      ++ record { workspace_id = i; key = k; value = v; expires_at = e; updated_at = now } ∷ []

store_value :
    (Call → Bool) → ℕ → String → SetBody → Option String → World → List Row → List Row × Response
unfolding upsert_row expiry
store_value fails now i b none w rows = (rows, error 500 "failed to set memory")
store_value fails now i b (some v) w rows =
    if fails upsert || not (any (has_id i) w.workspaces)
    then (rows, error 500 "failed to set memory")
    else (
      upsert_row now i b.key v (expiry now b.ttl_seconds) rows,
      reply 200 (("status", "ok") ∷ ("key", b.key) ∷ []),
    )

unfoldable pub set :
    (Call → Bool)
    → (String → Option String)
    → ℕ
    → String
    → Option SetBody
    → World
    → List Row
    → List Row × Response
unfolding store_value
set fails jsonb now i none w rows = (rows, error 400 "bad body")
set fails jsonb now i (some b) w rows =
    if is_empty b.key
    then (rows, error 400 "key is required")
    else store_value fails now i b (jsonb b.value) w rows

unfoldable pub delete_key : (Call → Bool) → String → String → List Row → List Row × Response
delete_key fails i k rows =
    if fails delete_row
    then (rows, error 500 "failed to delete")
    else (delete (at_key i k) rows, reply 200 (("status", "deleted") ∷ []))
