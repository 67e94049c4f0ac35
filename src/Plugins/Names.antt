-- ===== src/Plugins/Names.antt =====
-- Which names of plugins and references of git come out of the checks.
use Prim.Native.Char.{code}
use starfire_agent_team.Prelude.{
  ℕ, ◌≡◌, refl, ap, subst, some_inj, String, Bool, true, false, ◌&&◌, Option, none, some, arith,
  if◌then◌else◌, Bool-cases, ◌⊎◌, inl, inr, eqb,
}
use starfire_agent_team.Text.{trim_space, contains_char}
use starfire_agent_team.Plugins.{
  is_alphanumeric, is_repo_char, refused_name, all_chars, is_segment, is_ref, local_name, Repo,
  repo_of, repo_after, split_first, match_repo,
}

without_char :
    (p : ℕ → Bool) (k : ℕ) (s : String)
    → p k ≡ false
    → all_chars p s ≡ true
    → contains_char k s ≡ false
unfolding contains_char
without_char p k String.[] out h = refl
without_char p k (String.◌∷◌ c s) out h = elim (Bool-cases (eqb (code c) k)) [
  | inl same ↦ absurd (clash (ap p (ground arith)))
  | inr differs ↦ ground (arith, without_char p k s out)
]
  where
    clash : p (code c) ≡ p k → ⊥
    clash e = ground (arith, e)

abbrev pub starts_with_alphanumeric : String → Bool
starts_with_alphanumeric String.[] = false
starts_with_alphanumeric (String.◌∷◌ c s) = is_alphanumeric (code c)

-- One element of a path, which is not hidden and leads nowhere else.
pub PlainName : String → Type 0
PlainName name =
    (starts_with_alphanumeric name ≡ true)
    × (contains_char b'/' name ≡ false)
    × (contains_char b'\\' name ≡ false)

segment_is_plain : (s : String) → is_segment s ≡ true → PlainName s
unfolding PlainName contains_char
segment_is_plain String.[] h = cc
segment_is_plain (String.◌∷◌ c s) h = (
  ground arith,
  ground (arith, without_char is_repo_char b'/' s refl),
  ground (arith, without_char is_repo_char b'\\' s refl),
)

local_is_plain : (s : String) → refused_name s ≡ false → PlainName s
unfolding PlainName contains_char
local_is_plain String.[] h = cc
local_is_plain (String.◌∷◌ c s) h = (ground arith, ground arith, ground arith)

chosen :
    {A : Type 0} (b : Bool) (q r : A) → (if b then some q else none) ≡ some r → (b ≡ true) × (q ≡ r)
chosen true q r h = (refl, some_inj h)
chosen false q r h = cc

repo_is_plain :
    (owner : String) (p : String × Option String) (r : Repo)
    → repo_of owner p ≡ some r
    → PlainName r.repo
repo_is_plain owner (repo, none) r h =
    let (good, same) = chosen (is_segment owner && is_segment repo) _ r h in
    subst (λ q. PlainName q.repo) same (segment_is_plain repo (ground arith))
repo_is_plain owner (repo, some ref) r h =
    let (good, same) = chosen (is_segment owner && is_segment repo && is_ref ref) _ r h in
    subst (λ q. PlainName q.repo) same (segment_is_plain repo (ground arith))

-- A plugin that is fetched gets a plain name: from the local directory the one that was asked for,
-- from github the repository's.
pub fetched_plain :
    (spec name : String)
    → (local_name spec ≡ some name) ⊎ ((r : Repo) × (match_repo spec ≡ some r) × (r.repo ≡ name))
    → PlainName name
unfolding local_name split_first match_repo
fetched_plain spec name (inl h) = elim (Bool-cases (refused_name (trim_space spec))) [
  | inl bad ↦ absurd (nothing (rw bad at h))
  | inr good ↦ subst PlainName (some_inj (rw good at h)) (local_is_plain (trim_space spec) good)
]
  where
    nothing : none ≡ some name → ⊥
    nothing k = cc
fetched_plain spec name (inr (r, h, e)) =
    subst PlainName e (after (split_first b'/' (trim_space spec)) h)
  where
    after : (p : String × Option String) → repo_after p ≡ some r → PlainName r.repo
    after (owner, none) k = cc
    after (owner, some rest) k = repo_is_plain owner (split_first b'#' rest) r k
