-- ===== src/Access/Laws.antt =====
-- The access check against the hierarchy rules, stated on the rows.
use starfire_agent_team.Prelude.{
  String, ◌≡◌, refl, ◌⊎◌, inl, inr, ◌↔◌, Bool, true, false, Option, none, some, arith, eq_iff, ◌==◌,
  sym, Bool-cases,
}
use starfire_agent_team.World.{Workspace, World, workspace}
use starfire_agent_team.World.Laws.{workspace-id}
use starfire_agent_team.Access.{Lookup, by_hierarchy, can_communicate, healthy, ref}

-- The same workspace, siblings (two roots are siblings), or a parent and its child.
abbrev pub Linked : World → String → String → Type 0
Linked w a b =
    (a ≡ b)
    ⊎ ((c : Workspace) × (t : Workspace) × (workspace a w ≡ some c)
        × (workspace b w ≡ some t)
        × ((c.parent_id ≡ t.parent_id) ⊎ (t.parent_id ≡ some a) ⊎ (c.parent_id ≡ some b)))

parents_iff :
    (p q : Option String) (i j : String)
    → (by_hierarchy
          (some (record { id = i; parent_id = p }))
          (some (record { id = j; parent_id = q }))
        ≡ true)
      ↔ ((p ≡ q) ⊎ (q ≡ some i) ⊎ (p ≡ some j))
parents_iff (some p) (some q) i j = (
  λ h. ground (arith, eq_iff p q, eq_iff q i, eq_iff p j),
  λ h. ground (arith, eq_iff p q, eq_iff q i, eq_iff p j),
)
parents_iff none (some q) i j = (λ h. ground (arith, eq_iff q i), λ h. ground (arith, eq_iff q i))
parents_iff (some p) none i j = (λ h. ground (arith, eq_iff p j), λ h. ground (arith, eq_iff p j))
parents_iff none none i j = (λ h. inl refl, λ h. refl)

at_ids :
    {p q : Option String} {i j a b : String}
    → i ≡ a
    → j ≡ b
    → (p ≡ q) ⊎ (q ≡ some i) ⊎ (p ≡ some j)
    → (p ≡ q) ⊎ (q ≡ some a) ⊎ (p ≡ some b)
at_ids e f k = ground arith

Linked-rows :
    (w : World) (a b : String) (oc ot : Option Workspace)
    → workspace a w ≡ oc
    → workspace b w ≡ ot
    → by_hierarchy (ref oc) (ref ot) ≡ true
    → Linked w a b
Linked-rows w a b none ot ec et h = cc
Linked-rows w a b (some c) none ec et h = cc
Linked-rows w a b (some c) (some t) ec et h = inr (
  c,
  t,
  ec,
  et,
  at_ids (workspace-id a w c ec) (workspace-id b w t et)
      ((parents_iff c.parent_id t.parent_id c.id t.id).0 h),
)

Linked-can_communicate :
    (w : World) (a b : String) → Linked w a b → can_communicate healthy a b w ≡ true
unfolding can_communicate
Linked-can_communicate w a b (inl e) = ground (arith, eq_iff a b)
Linked-can_communicate w a b (inr (c, t, ec, et, kin)) = elim (Bool-cases (a == b)) [
  | inl e ↦ rw e
  | inr e ↦
      rw (e, ec, et)
        ((parents_iff c.parent_id t.parent_id c.id t.id).1
          (at_ids (sym (workspace-id a w c ec)) (sym (workspace-id b w t et)) kin))
]

can_communicate-Linked :
    (w : World) (a b : String) → can_communicate healthy a b w ≡ true → Linked w a b
unfolding can_communicate
can_communicate-Linked w a b h = elim (Bool-cases (a == b)) [
  | inl e ↦ inl ((eq_iff a b).0 e)
  | inr e ↦ Linked-rows w a b (workspace a w) (workspace b w) refl refl (rw e at h)
]

-- Where its queries succeed, the check passes exactly for a workspace and itself, two workspaces on
-- file with the same parent or both without one, and two on file of which one is the other's
-- parent.
pub can_communicate_iff :
    (w : World) (a b : String) → (can_communicate healthy a b w ≡ true) ↔ Linked w a b
can_communicate_iff w a b = (can_communicate-Linked w a b, Linked-can_communicate w a b)

Linked-symm : (w : World) (a b : String) → Linked w a b → Linked w b a
Linked-symm w a b (inl e) = inl (sym e)
Linked-symm w a b (inr (c, t, ec, et, inl k)) = inr (t, c, et, ec, inl (sym k))
Linked-symm w a b (inr (c, t, ec, et, inr (inl k))) = inr (t, c, et, ec, inr (inr k))
Linked-symm w a b (inr (c, t, ec, et, inr (inr k))) = inr (t, c, et, ec, inr (inl k))

same_truth : (p q : Bool) → (p ≡ true → q ≡ true) → (q ≡ true → p ≡ true) → p ≡ q
same_truth true q f g = sym (f refl)
same_truth false true f g = g refl
same_truth false false f g = refl

-- Access is symmetric: the caller reaches the target exactly if the target reaches the caller.
pub can_communicate_comm :
    (w : World) (a b : String) → can_communicate healthy a b w ≡ can_communicate healthy b a w
can_communicate_comm w a b =
    same_truth _ _
      (λ h. Linked-can_communicate w b a (Linked-symm w a b (can_communicate-Linked w a b h)))
      (λ h. Linked-can_communicate w a b (Linked-symm w b a (can_communicate-Linked w b a h)))

-- A failed query never grants access: what passes while queries fail passes when none does.
pub can_communicate_fail_closed :
    (fails : Lookup → Bool) (w : World) (a b : String)
    → can_communicate fails a b w ≡ true
    → can_communicate healthy a b w ≡ true
unfolding can_communicate
can_communicate_fail_closed fails w a b h = ground arith
