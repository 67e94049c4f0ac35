-- ===== src/WsAuth/Laws.antt =====
-- What a token proves: its binding to one workspace, revocation, and the uniqueness of hashes.
use starfire_agent_team.Prelude.{
  ℕ, String, Bool, true, false, ◌≡◌, refl, ◌≢◌, ◌&&◌, not, Option, none, some, List, [], ◌∷◌, arith,
  eq_iff, eq_refl, ◌==◌, any, Option-cases, inl, inr, ap, ◌∙◌, sym,
}
use starfire_agent_team.Sql.{first, update}
use starfire_agent_team.Sql.Laws.{count_pos, first_sound}
use starfire_agent_team.Text.{is_empty}
use starfire_agent_team.World.{World, Token}
use starfire_agent_team.WsAuth.{
  Call, lookup, has_hash, live_hash, live_of, issue_token, validate_token, revoke_all_for_workspace,
  has_any_live_token, healthy, fresh_token, revoked_token,
}

-- UNIQUE (token_hash)
abbrev pub UniqueHashes : List Token → Type 0
UniqueHashes [] = Unit {0}
UniqueHashes (t ∷ ts) = (any (has_hash t.token_hash) ts ≡ false) × UniqueHashes ts

live_hash_parts :
    (h : String) (t : Token) → live_hash h t ≡ true → (t.token_hash ≡ h) × (t.revoked ≡ false)
live_hash_parts h t e = ground (arith, eq_iff t.token_hash h)

module _ (sha256 : String → String) (fails : Call → Bool) where
  -- A token that is valid for a workspace is on file: not revoked, under the hash of the presented
  -- text, issued to that very workspace; and neither the text nor the workspace id is empty.
  pub validate_token_sound :
      (now : ℕ) (i plaintext : String) (w : World)
      → (validate_token sha256 fails now i plaintext w).1 ≡ true
      → (t : Token) × (first (live_hash (sha256 plaintext)) w.tokens ≡ some t)
        × (t.token_hash ≡ sha256 plaintext)
        × (t.revoked ≡ false)
        × (t.workspace_id ≡ i)
        × (is_empty plaintext ≡ false)
        × (is_empty i ≡ false)
  unfolding validate_token
  validate_token_sound now i plaintext w h = go (first (live_hash (sha256 plaintext)) w.tokens) refl
    where
      go :
          (o : Option Token)
          → first (live_hash (sha256 plaintext)) w.tokens ≡ o
          → (t : Token) × (first (live_hash (sha256 plaintext)) w.tokens ≡ some t)
            × (t.token_hash ≡ sha256 plaintext)
            × (t.revoked ≡ false)
            × (t.workspace_id ≡ i)
            × (is_empty plaintext ≡ false)
            × (is_empty i ≡ false)
      go none e = absurd (ground arith)
      go (some t) e =
          let q = live_hash_parts (sha256 plaintext) t (first_sound _ w.tokens t e) in
          (t, e, q.0, q.1, ground (arith, eq_iff t.workspace_id i), ground arith, ground arith)

  -- One token never authenticates two workspaces.
  pub validate_token_bound :
      (now later : ℕ) (i j plaintext : String) (w : World)
      → i ≢ j
      → (validate_token sha256 fails now i plaintext w).1 ≡ true
      → (validate_token sha256 fails later j plaintext w).1 ≡ false
  unfolding validate_token
  validate_token_bound now later i j plaintext w ne h =
      elim (Option-cases (first (live_hash (sha256 plaintext)) w.tokens)) [
        | inl e ↦ ground arith
        | inr (t, e) ↦ ground (arith, eq_iff t.workspace_id i, eq_iff t.workspace_id j)
      ]

  -- A token that is issued is valid for its workspace from then on, as long as the lookup answers.
  pub validate_token-issue_token :
      (new_id now : ℕ) (random : Option String) (i plaintext : String) (w : World)
      → (issue_token sha256 fails new_id random i w).1 ≡ some plaintext
      → is_empty plaintext ≡ false
      → is_empty i ≡ false
      → fails lookup ≡ false
      → (validate_token sha256 fails now i plaintext
          (issue_token sha256 fails new_id random i w).0).1
        ≡ true
  unfolding validate_token issue_token fresh_token first
  validate_token-issue_token new_id now none i plaintext w e hp hi hl = cc
  validate_token-issue_token new_id now (some r) i plaintext w e hp hi hl =
      ground (arith, eq_refl (sha256 plaintext), eq_refl i)

  -- Issuing keeps the hashes unique.
  pub issue_token-UniqueHashes :
      (new_id : ℕ) (random : Option String) (i : String) (w : World)
      → UniqueHashes w.tokens
      → UniqueHashes (issue_token sha256 fails new_id random i w).0.tokens
  unfolding issue_token fresh_token
  issue_token-UniqueHashes new_id none i w u = u
  issue_token-UniqueHashes new_id (some r) i w u = ground arith

none_with_hash :
    (h : String) (ts : List Token) → any (has_hash h) ts ≡ false → first (live_hash h) ts ≡ none
unfolding first
none_with_hash h [] n = refl
none_with_hash h (x ∷ ts) n = ground (arith, none_with_hash h ts)

abbrev belongs : String → Option Token → Bool
belongs j none = false
belongs j (some t) = t.workspace_id == j

any-update_revoked :
    (h i : String) (ts : List Token)
    → any (has_hash h) (update (live_of i) revoked_token ts) ≡ any (has_hash h) ts
unfolding update revoked_token
any-update_revoked h i [] = refl
any-update_revoked h i (x ∷ ts) = ground (arith, any-update_revoked h i ts)

UniqueHashes-revoked :
    (i : String) (ts : List Token)
    → UniqueHashes ts
    → UniqueHashes (update (live_of i) revoked_token ts)
unfolding update revoked_token
UniqueHashes-revoked i [] u = tt
UniqueHashes-revoked i (x ∷ ts) u =
    ground (arith, any-update_revoked x.token_hash i ts, UniqueHashes-revoked i ts u.1)

belongs-revoked :
    (h i j : String) (ts : List Token)
    → i ≢ j
    → UniqueHashes ts
    → belongs j (first (live_hash h) (update (live_of i) revoked_token ts))
      ≡ belongs j (first (live_hash h) ts)
unfolding update revoked_token first
belongs-revoked h i j [] ne u = refl
belongs-revoked h i j (x ∷ ts) ne u = ground (
  arith,
  belongs-revoked h i j ts ne u.1,
  eq_iff x.workspace_id i,
  eq_iff x.workspace_id j,
  eq_iff x.token_hash h,
  none_with_hash x.token_hash ts u.0,
  none_with_hash x.token_hash (update (live_of i) revoked_token ts),
  any-update_revoked x.token_hash i ts,
)

none_live :
    (i : String) (ts : List Token) → any (live_of i) (update (live_of i) revoked_token ts) ≡ false
unfolding update revoked_token
none_live i [] = refl
none_live i (x ∷ ts) = ground (arith, none_live i ts)

belongs-no_live :
    (h i : String) (ts : List Token)
    → any (live_of i) ts ≡ false
    → belongs i (first (live_hash h) ts) ≡ false
unfolding first
belongs-no_live h i [] n = refl
belongs-no_live h i (x ∷ ts) n = ground (arith, belongs-no_live h i ts)

validate-belongs :
    (sha256 : String → String) (now : ℕ) (j plaintext : String) (w : World)
    → (validate_token sha256 healthy now j plaintext w).1 ≡ (
        not (is_empty plaintext)
        && not (is_empty j)
        && belongs j (first (live_hash (sha256 plaintext)) w.tokens))
unfolding validate_token
validate-belongs sha256 now j plaintext w = ground arith

-- Once the tokens of a workspace are revoked it has no live token, no text authenticates it, and
-- every other workspace authenticates with exactly the texts as before.
pub revoke_all_for_workspace_lem :
    (sha256 : String → String) (now : ℕ) (i j plaintext : String) (w : World)
    → UniqueHashes w.tokens
    → i ≢ j
    → let v = (revoke_all_for_workspace healthy i w).0 in
      (has_any_live_token healthy i v ≡ some false)
      × ((validate_token sha256 healthy now i plaintext v).1 ≡ false)
      × ((validate_token sha256 healthy now j plaintext v).1
          ≡ (validate_token sha256 healthy now j plaintext w).1)
      × UniqueHashes v.tokens
unfolding revoke_all_for_workspace has_any_live_token
revoke_all_for_workspace_lem sha256 now i j plaintext w u ne =
    let gone = none_live i w.tokens in
    (
      ap some (count_pos (live_of i) _ ∙ gone),
      rw validate-belongs (ground (arith, belongs-no_live (sha256 plaintext) i _ gone)),
      validate-belongs sha256 now j plaintext _
          ∙ ap (λ b. not (is_empty plaintext) && not (is_empty j) && b)
              (belongs-revoked (sha256 plaintext) i j w.tokens ne u)
          ∙ sym (validate-belongs sha256 now j plaintext w),
      UniqueHashes-revoked i w.tokens u,
    )
