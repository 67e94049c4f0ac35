-- ===== src/Approvals/Final.antt =====
-- A decision on a request is final.
use starfire_agent_team.Prelude.{
  ℕ, ◌≡◌, ◌≢◌, ◌++◌, ◌||◌, ◌==◌, not, inl, inr, Bool-cases, refl, sym, subst, ◌∙◌, if◌then◌else◌,
  String, Bool, true, false, Option, none, some, List, [], ◌∷◌, arith, any, eq_iff,
}
use starfire_agent_team.Text.{is_empty}
use starfire_agent_team.World.{has_id}
use starfire_agent_team.Sql.{first, update}
use starfire_agent_team.Sql.Laws.{
  first-append, first-update_other, any-append, any-update, any-update_none, any-update_never,
}
use starfire_agent_team.Approvals.{
  Verdict, approved, denied, insert, expire, decision, requested, Approval, Desk, CreateBody,
  DecideBody, Call, is_pending, same_id, open_request, escalate_to, create, expire_stale, list_all,
  apply_decision, decide, stale, expired, decided,
}

-- A request to one of the handlers that write, with the statements of it that fail, and its time.
pub data Op : Type 0 where
  create_op : (Call → Bool) → ℕ → String → String → Option CreateBody → Op
  list_op : (Call → Bool) → ℕ → Op
  decide_op : (Call → Bool) → ℕ → String → String → Option DecideBody → Op

unfoldable pub step : Op → Desk → Desk
step (create_op fails now new_id i body) s = (create fails now new_id i body s).0
step (list_op fails now) s = (list_all fails now s).0
step (decide_op fails now i request_id body) s = (decide fails now i request_id body s).0

unfoldable pub run : List Op → Desk → Desk
unfolding step
run [] s = s
run (op ∷ ops) s = run ops (step op s)

requests-escalate_to :
    (fails : Call → Bool) (now : ℕ) (o : Option String) (s : Desk)
    → (escalate_to fails now o s).requests ≡ s.requests
unfolding escalate_to
requests-escalate_to fails now none s = refl
requests-escalate_to fails now (some p) s = refl

-- The four ways in which a step changes the table.
pub data Change (old new : List Approval) : Type 0 where
  same : new ≡ old → Change old new
  inserted : (r : Approval) → any (same_id r.id) old ≡ false → new ≡ old ++ r ∷ [] → Change old new
  swept : (now : ℕ) → new ≡ update (stale now) (expired now) old → Change old new
  ruled :
      (i j : String) (now : ℕ) (v : Verdict) (by : String)
      → is_pending v ≡ false
      → new ≡ update (open_request i j) (decided now v by) old
      → Change old new

Change-create :
    (fails : Call → Bool) (now : ℕ) (new_id i : String) (body : Option CreateBody) (s : Desk)
    → Change s.requests (create fails now new_id i body s).0.requests
unfolding create starfire_agent_team.Approvals.requested
Change-create fails now new_id i none s = same refl
Change-create fails now new_id i (some b) s =
    elim (Bool-cases (
      fails insert || any (same_id new_id) s.requests || not (any (has_id i) s.world.workspaces))) [
        | inl e ↦ same (rw e refl)
        | inr e ↦
            inserted (requested now new_id i b) (ground arith)
              (rw e (requests-escalate_to fails now _ _))
      ]

Change-list_all :
    (fails : Call → Bool) (now : ℕ) (s : Desk) → Change s.requests (list_all fails now s).0.requests
unfolding list_all expire_stale
Change-list_all fails now s = elim (Bool-cases (fails expire)) [
  | inl e ↦ same (rw e refl)
  | inr e ↦ swept now (rw e refl)
]

Change-apply_decision :
    (fails : Call → Bool) (now : ℕ) (i j by : String) (v : Verdict) (outcome kind : String)
    (s : Desk)
    → is_pending v ≡ false
    → Change s.requests (apply_decision fails now i j by v outcome kind s).0.requests
unfolding apply_decision
Change-apply_decision fails now i j by v outcome kind s closed =
    elim (Bool-cases (fails decision || not (any (open_request j i) s.requests))) [
      | inl e ↦ same (ground arith)
      | inr e ↦ ruled j i now v by closed (ground arith)
    ]

Change-decide :
    (fails : Call → Bool) (now : ℕ) (i j : String) (body : Option DecideBody) (s : Desk)
    → Change s.requests (decide fails now i j body s).0.requests
unfolding decide
Change-decide fails now i j none s = same refl
Change-decide fails now i j (some b) s =
    let by = if is_empty b.decided_by then "human" else b.decided_by in
    elim (Bool-cases (b.decision == "approved")) [
      | inl e ↦ rw e (Change-apply_decision fails now i j by approved _ _ s refl)
      | inr e ↦ elim (Bool-cases (b.decision == "denied")) [
        | inl d ↦ rw (e, d) (Change-apply_decision fails now i j by denied _ _ s refl)
        | inr d ↦ same (rw (e, d) refl)
      ]
    ]

pub Change-step : (op : Op) (s : Desk) → Change s.requests (step op s).requests
unfolding step
Change-step (create_op fails now new_id i body) s = Change-create fails now new_id i body s
Change-step (list_op fails now) s = Change-list_all fails now s
Change-step (decide_op fails now i j body) s = Change-decide fails now i j body s

first-Change :
    (i : String) (r : Approval) {old new : List Approval}
    → Change old new
    → first (same_id i) old ≡ some r
    → is_pending r.status ≡ false
    → first (same_id i) new ≡ some r
unfolding expired decided
first-Change i r (same e) found settled = rw e found
first-Change i r {old} (inserted q fresh e) found settled =
    rw e (first-append (same_id i) old (q ∷ []) r found)
first-Change i r {old} (swept now e) found settled = rw e (
    first-update_other (same_id i) (stale now) (expired now) (λ q. refl) old r found (ground arith))
first-Change i r {old} (ruled k j now v by closed e) found settled = rw e (
    first-update_other (same_id i) (open_request k j) (decided now v by) (λ q. refl) old r found
      (ground arith))

-- In any history of requests, listings and decisions, whichever statements fail, a request that is
-- no longer pending keeps its row: the verdict, who gave it, and when.
pub run-decided :
    (ops : List Op) (s : Desk) (i : String) (r : Approval)
    → first (same_id i) s.requests ≡ some r
    → is_pending r.status ≡ false
    → first (same_id i) (run ops s).requests ≡ some r
unfolding run
run-decided [] s i r found settled = found
run-decided (op ∷ ops) s i r found settled =
    run-decided ops (step op s) i r (first-Change i r (Change-step op s) found settled) settled

-- The id is on file, and not open.
record Closed (i workspace_id : String) (rows : List Approval) : Type 0 where
  on_file : any (same_id i) rows ≡ true
  none_open : any (open_request i workspace_id) rows ≡ false

Closed-insert :
    (i j : String) (q : Approval) (old : List Approval)
    → any (same_id q.id) old ≡ false
    → Closed i j old
    → Closed i j (old ++ q ∷ [])
Closed-insert i j q old fresh c = record {
  on_file = ground (arith, any-append (same_id i) old (q ∷ []), c.on_file);
  none_open =
      ground
        (arith, any-append (open_request i j) old (q ∷ []), c.none_open, c.on_file, eq_iff q.id i);
}

Closed-update :
    (i j : String) (p : Approval → Bool) (f : Approval → Approval) (old : List Approval)
    → ((r : Approval) → same_id i (f r) ≡ same_id i r)
    → ((r : Approval) → open_request i j (f r) ≡ false)
    → Closed i j old
    → Closed i j (update p f old)
Closed-update i j p f old keeps closes c = record {
  on_file = any-update (same_id i) p f keeps old ∙ c.on_file;
  none_open = any-update_never (open_request i j) p f closes old c.none_open;
}

Closed-Change :
    (i j : String) {old new : List Approval} → Change old new → Closed i j old → Closed i j new
unfolding expired decided
Closed-Change i j (same e) c = subst (Closed i j) (sym e) c
Closed-Change i j {old} (inserted q fresh e) c =
    subst (Closed i j) (sym e) (Closed-insert i j q old fresh c)
Closed-Change i j {old} (swept now e) c =
    subst (Closed i j) (sym e)
      (Closed-update i j (stale now) (expired now) old (λ r. refl) (λ r. ground arith) c)
Closed-Change i j {old} (ruled k l now v by closed e) c = subst (Closed i j) (sym e) (
    Closed-update i j (open_request k l) (decided now v by) old (λ r. refl)
      (λ r. ground (arith, closed)) c)

Closed-run :
    (ops : List Op) (i j : String) (s : Desk)
    → Closed i j s.requests
    → Closed i j (run ops s).requests
unfolding run
Closed-run [] i j s c = c
Closed-run (op ∷ ops) i j s c =
    Closed-run ops i j (step op s) (Closed-Change i j (Change-step op s) c)

on_file_of_open :
    (i j : String) (rows : List Approval)
    → any (open_request i j) rows ≡ true
    → any (same_id i) rows ≡ true
on_file_of_open i j [] h = cc
on_file_of_open i j (r ∷ rows) h = ground (arith, on_file_of_open i j rows)

Closed-apply_decision :
    (fails : Call → Bool) (now : ℕ) (j i by : String) (v : Verdict) (outcome kind : String)
    (s : Desk)
    → is_pending v ≡ false
    → (apply_decision fails now j i by v outcome kind s).1.code ≡ 200
    → Closed i j (apply_decision fails now j i by v outcome kind s).0.requests
unfolding apply_decision decided
Closed-apply_decision fails now j i by v outcome kind s closed ok =
    elim (Bool-cases (fails decision)) [
      | inl e ↦ absurd (ground arith)
      | inr e ↦ elim (Bool-cases (any (open_request i j) s.requests)) [
        | inl was ↦ rw (e, was) (written was)
        | inr none_there ↦ absurd (ground arith)
      ]
    ]
  where
    written :
        any (open_request i j) s.requests ≡ true
        → Closed i j (update (open_request i j) (decided now v by) s.requests)
    written was = record {
      on_file =
          any-update (same_id i) (open_request i j) (decided now v by) (λ r. refl) s.requests
          ∙ on_file_of_open i j s.requests was;
      none_open =
          any-update_none (open_request i j) (open_request i j) (decided now v by)
            (λ r. ground (arith, closed)) s.requests;
    }

Closed-decide :
    (fails : Call → Bool) (now : ℕ) (j i : String) (body : Option DecideBody) (s : Desk)
    → (decide fails now j i body s).1.code ≡ 200
    → Closed i j (decide fails now j i body s).0.requests
unfolding decide
Closed-decide fails now j i none s ok = absurd (omega (arith, ok))
Closed-decide fails now j i (some b) s ok =
    let by = if is_empty b.decided_by then "human" else b.decided_by in
    elim (Bool-cases (b.decision == "approved")) [
      | inl e ↦ rw e (Closed-apply_decision fails now j i by approved _ _ s refl (rw e at ok))
      | inr e ↦ elim (Bool-cases (b.decision == "denied")) [
        | inl d ↦
            rw (e, d) (Closed-apply_decision fails now j i by denied _ _ s refl (rw (e, d) at ok))
        | inr d ↦ absurd (ground arith)
      ]
    ]

decide-Closed :
    (fails : Call → Bool) (now : ℕ) (j i : String) (body : Option DecideBody) (s : Desk)
    → Closed i j s.requests
    → (decide fails now j i body s).1.code ≢ 200
unfolding decide apply_decision
decide-Closed fails now j i none s c = λ e. omega (arith, e)
decide-Closed fails now j i (some b) s c = λ e. ground (arith, c.none_open)

-- A request is decided at most once: after a decision that was answered with 200, and whatever else
-- happens, no decision on the same request is answered with 200 again, whichever statements fail.
pub decided_once :
    (ops : List Op) (fails later_fails : Call → Bool) (now later : ℕ)
    (workspace_id request_id : String) (body later_body : Option DecideBody) (s : Desk)
    → (decide fails now workspace_id request_id body s).1.code ≡ 200
    → (decide later_fails later workspace_id request_id later_body
        (run ops (decide fails now workspace_id request_id body s).0)).1.code
      ≢ 200
decided_once ops fails later_fails now later j i body later_body s ok =
    decide-Closed later_fails later j i later_body _
      (Closed-run ops i j _ (Closed-decide fails now j i body s ok))
