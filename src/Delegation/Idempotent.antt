-- ===== src/Delegation/Idempotent.antt =====
-- A delegation with an idempotency key is started once.
use starfire_agent_team.Prelude.{
  ℕ, ◌≡◌, refl, sym, subst, String, Bool, true, false, ◌||◌, not, none, some, List, [], ◌∷◌, ◌++◌,
  arith, ◌==◌, Bool-cases, inl, inr, any, all, eq_refl,
}
use starfire_agent_team.Text.{is_empty}
use starfire_agent_team.Sql.{first, apply_when}
use starfire_agent_team.Sql.Laws.{first-update, first-append_last, first-none_of_any}
use starfire_agent_team.World.{has_id}
use starfire_agent_team.Delegation.{
  Activity, Log, DelegateBody, Call, lookup, insert, update_status, tracks, keyed, is_failed,
  with_status, existing, delegated, update_delegation_status, store_and_dispatch, dispatch,
  with_delegation, delegate, hit,
}

-- A report on the status of a delegation: its id, the status and the error.
pub record Report : Type 0 where
  pub delegation_id : String
  pub status : String
  pub detail : String

abbrev pub no_failure : Report → Bool
no_failure r = not (r.status == "failed")

-- Reports on delegations of one workspace, each with the statements that fail.
unfoldable pub reported : (Call → Bool) → String → List Report → Log → Log
reported fails i [] s = s
reported fails i (r ∷ rs) s =
    reported fails i rs (update_delegation_status fails i r.delegation_id r.status r.detail s)

-- The key belongs to the delegation, which has not failed.
record Holds (i k d : String) (s : Log) : Type 0 where
  row : Activity
  found : first (keyed i k) s.activities ≡ some row
  same_delegation : row.delegation_id ≡ some d
  unfailed : is_failed row ≡ false

Holds-update :
    (fails : Call → Bool) (i k d j : String) (status detail : String) (s : Log)
    → (status == "failed") ≡ false
    → Holds i k d s
    → Holds i k d (update_delegation_status fails i j status detail s)
unfolding update_delegation_status with_status
Holds-update fails i k d j status detail s fine h = elim (Bool-cases (fails update_status)) [
  | inl e ↦ rw e h
  | inr e ↦ record {
    row = apply_when (tracks i j) (with_status status detail) h.row;
    found =
        rw
          (
            e,
            first-update (keyed i k) (tracks i j) (with_status status detail) (λ a. refl)
                s.activities,
            h.found,
          )
          refl;
    same_delegation = ground (arith, h.same_delegation);
    unfailed = ground (arith, h.unfailed);
  }
]

Holds-reported :
    (fails : Call → Bool) (i k d : String) (rs : List Report) (s : Log)
    → all no_failure rs ≡ true
    → Holds i k d s
    → Holds i k d (reported fails i rs s)
unfolding reported
Holds-reported fails i k d [] s fine h = h
Holds-reported fails i k d (r ∷ rs) s fine h =
    Holds-reported fails i k d rs _ (ground arith)
      (Holds-update fails i k d r.delegation_id r.status r.detail s (ground arith) h)

with_delegation-some :
    (a : Activity) (d : String)
    → a.delegation_id ≡ some d
    → is_empty d ≡ false
    → with_delegation (some a) ≡ some (a, d)
with_delegation-some a d e named = ground arith

existing-Holds :
    (i k d : String) (s : Log) (h : Holds i k d s)
    → is_empty k ≡ false
    → is_empty d ≡ false
    → existing false i k s ≡ some (h.row, d)
unfolding existing
existing-Holds i k d s h key named =
    rw (key, h.found) (with_delegation-some h.row d h.same_delegation named)

existing-unused :
    (failed : Bool) (i k : String) (s : Log)
    → any (keyed i k) s.activities ≡ false
    → existing failed i k s ≡ none
unfolding existing
existing-unused failed i k s unused = elim (Bool-cases (is_empty k || failed)) [
  | inl e ↦ rw e refl
  | inr e ↦ rw (e, first-none_of_any (keyed i k) s.activities unused) refl
]

-- The log after a delegation whose row was stored.
abbrev stored : ℕ → String → String → DelegateBody → Log → Log
stored now i d b s = record s {
  activities =
      s.activities ++ delegated now i b.target_id d (some b.idempotency_key) "pending" ∷ [];
}

delegate-unused :
    (fails : Call → Bool) (is_uuid : String → Bool) (now : ℕ) (d i : String) (b : DelegateBody)
    (s : Log)
    → fails insert ≡ false
    → is_uuid b.target_id ≡ true
    → is_empty b.idempotency_key ≡ false
    → any (has_id i) s.world.workspaces ≡ true
    → any (keyed i b.idempotency_key) s.activities ≡ false
    → delegate fails is_uuid now d i (some b) s ≡ dispatch fails true d i b (stored now i d b s)
unfolding delegate store_and_dispatch delegated
delegate-unused fails is_uuid now d i b s stores valid key on_file unused =
    rw
      (
        valid,
        existing-unused (fails lookup) i b.idempotency_key s unused,
        stores,
        on_file,
        key,
        unused,
      )
      refl

Holds-stored :
    (now : ℕ) (i d : String) (b : DelegateBody) (s : Log)
    → any (keyed i b.idempotency_key) s.activities ≡ false
    → Holds i b.idempotency_key d (stored now i d b s)
unfolding delegated
Holds-stored now i d b s unused = record {
  row = delegated now i b.target_id d (some b.idempotency_key) "pending";
  found =
      rw
        (
          first-append_last (keyed i b.idempotency_key) s.activities _,
          first-none_of_any (keyed i b.idempotency_key) s.activities unused,
          eq_refl i,
          eq_refl b.idempotency_key,
        )
        refl;
  same_delegation = refl;
  unfailed = refl;
}

Holds-delegate :
    (fails : Call → Bool) (is_uuid : String → Bool) (now : ℕ) (d i : String) (b : DelegateBody)
    (s : Log)
    → fails insert ≡ false
    → is_uuid b.target_id ≡ true
    → is_empty b.idempotency_key ≡ false
    → any (has_id i) s.world.workspaces ≡ true
    → any (keyed i b.idempotency_key) s.activities ≡ false
    → Holds i b.idempotency_key d (delegate fails is_uuid now d i (some b) s).0
unfolding dispatch
Holds-delegate fails is_uuid now d i b s stores valid key on_file unused =
    let h = Holds-stored now i d b s unused in
    rw (delegate-unused fails is_uuid now d i b s stores valid key on_file unused) (record {
      row = h.row;
      found = h.found;
      same_delegation = h.same_delegation;
      unfailed = h.unfailed;
    })

delegate-Holds :
    (fails : Call → Bool) (is_uuid : String → Bool) (now : ℕ) (d later_d i : String)
    (b : DelegateBody) (s : Log) (h : Holds i b.idempotency_key d s)
    → is_uuid b.target_id ≡ true
    → is_empty b.idempotency_key ≡ false
    → is_empty d ≡ false
    → fails lookup ≡ false
    → delegate fails is_uuid now later_d i (some b) s
      ≡ (s, hit d h.row.status h.row.target_id, none)
unfolding delegate
delegate-Holds fails is_uuid now d later_d i b s h valid key named answers =
    rw (valid, answers, existing-Holds i b.idempotency_key d s h key named, h.unfailed) refl

-- After a delegation with a key that its workspace has not used, stored and answered, and any
-- reports on delegations of that workspace of which none says `failed`, a second request with the
-- same key, be it for another task or another target with a well-formed id, is answered with the id
-- of the first, starts nothing and changes nothing, where its lookup succeeds.
pub delegate_once :
    (fails report_fails later_fails : Call → Bool) (is_uuid : String → Bool) (now later : ℕ)
    (d later_d i : String) (b later_b : DelegateBody) (reports : List Report) (s : Log)
    → fails insert ≡ false
    → later_fails lookup ≡ false
    → is_uuid b.target_id ≡ true
    → is_uuid later_b.target_id ≡ true
    → later_b.idempotency_key ≡ b.idempotency_key
    → is_empty b.idempotency_key ≡ false
    → is_empty d ≡ false
    → any (has_id i) s.world.workspaces ≡ true
    → any (keyed i b.idempotency_key) s.activities ≡ false
    → all no_failure reports ≡ true
    → (status : String) × (target : String) × (delegate later_fails is_uuid later later_d i
          (some later_b)
          (reported report_fails i reports (delegate fails is_uuid now d i (some b) s).0)
        ≡ (
          reported report_fails i reports (delegate fails is_uuid now d i (some b) s).0,
          hit d status target,
          none,
        ))
delegate_once fails report_fails later_fails is_uuid now later d later_d i b later_b reports s
      stores answers valid later_valid same_key key named on_file unused fine =
    let after = reported report_fails i reports (delegate fails is_uuid now d i (some b) s).0 in
    let h =
      subst (λ k. Holds i k d after) (sym same_key)
        (Holds-reported report_fails i b.idempotency_key d reports
          (delegate fails is_uuid now d i (some b) s).0 fine
          (Holds-delegate fails is_uuid now d i b s stores valid key on_file unused)) in
    (
      h.row.status,
      h.row.target_id,
      delegate-Holds later_fails is_uuid later d later_d i later_b after h later_valid
          (rw same_key key) named answers,
    )
