-- ===== src/Plugins.antt =====
-- plugins/source.go and the checks of plugins/local.go and plugins/github.go: where a plugin comes
-- from. File and git calls are not modelled.
pub mod Names
pub mod Sources
mod Tests
use Prim.Native.Char.{Char, code}
use starfire_agent_team.Prelude.{
  ℕ, zero, suc, String, Bool, true, false, ◌&&◌, ◌||◌, not, Option, none, some, List, [], ◌∷◌, ◌++◌,
  if◌then◌else◌, ◌==◌, leb, ltb, eqb, concat,
}
use starfire_agent_team.Text.{
  is_empty, trim_space, has_prefix, contains, contains_char, drop_chars, text_length,
}

pub record Source : Type 0 where
  pub scheme : String
  pub spec : String

pub raw : Source → String
raw s = concat s.scheme (concat "://" s.spec)

abbrev pub is_digit : ℕ → Bool
is_digit c = leb 48 c && leb c 57

abbrev pub is_lower : ℕ → Bool
is_lower c = leb 97 c && leb c 122

abbrev pub is_letter : ℕ → Bool
is_letter c = (leb 65 c && leb c 90) || is_lower c

-- [a-zA-Z0-9+\-.]
abbrev pub is_scheme_char : ℕ → Bool
is_scheme_char c = is_letter c || is_digit c || eqb c 43 || eqb c 45 || eqb c 46

abbrev pub cons_first : Char → Option (String × String) → Option (String × String)
cons_first c none = none
cons_first c (some p) = some (String.◌∷◌ c p.0, p.1)

-- The rest of a scheme, and what follows "://".
unfoldable pub scan : String → Option (String × String)
scan String.[] = none
scan (String.◌∷◌ c s) =
    let longer = cons_first c (scan s) in
    (if is_scheme_char (code c)
      then longer
      else if eqb (code c) 58 && has_prefix s "//"
      then some ("", drop_chars 2 s)
      else none)

-- (.*)$ matches no newline.
abbrev pub on_one_line : Option (String × String) → Option (String × String)
on_one_line none = none
on_one_line (some p) = if contains_char b'\n' p.1 then none else some p

-- schemeRE.FindStringSubmatch
unfoldable pub match_scheme : String → Option (String × String)
unfolding scan
match_scheme String.[] = none
match_scheme (String.◌∷◌ c s) =
    if is_letter (code c) then on_one_line (cons_first c (scan s)) else none

abbrev pub source_of : String → Option (String × String) → Option Source
source_of input none = some (record { scheme = "local"; spec = input })
source_of input (some p) =
    if is_empty (trim_space p.1)
    then none
    else some (record { scheme = p.0; spec = trim_space p.1 })

-- `none` for an error
unfoldable pub parse_source : String → Option Source
unfolding match_scheme
parse_source input =
    if is_empty (trim_space input)
    then none
    else source_of (trim_space input) (match_scheme (trim_space input))

-- r.resolvers
abbrev pub resolve : {R : Type 0} → String → List (String × R) → Option R
resolve scheme [] = none
resolve scheme ((k, r) ∷ rest) =
    let found = resolve scheme rest in if k == scheme then some r else found

abbrev pub register : {R : Type 0} → String → R → List (String × R) → List (String × R)
register scheme r resolvers = (scheme, r) ∷ resolvers

abbrev pub all_chars : (ℕ → Bool) → String → Bool
all_chars p String.[] = true
all_chars p (String.◌∷◌ c s) = p (code c) && all_chars p s

abbrev pub starts_and_all : (ℕ → Bool) → (ℕ → Bool) → String → Bool
starts_and_all first p String.[] = false
starts_and_all first p (String.◌∷◌ c s) = first (code c) && all_chars p s

-- [a-z0-9._-]
abbrev pub is_name_char : ℕ → Bool
is_name_char c = is_lower c || is_digit c || eqb c 46 || eqb c 95 || eqb c 45

abbrev pub refused_name : String → Bool
refused_name name =
    is_empty name
    || contains_char b'/' name
    || contains_char b'\\' name
    || contains name ".."
    || not (starts_and_all (λ c. is_lower c || is_digit c) is_name_char name)
    || ltb 128 (text_length name)

-- The checks of LocalResolver.Fetch on its spec, and the name that it returns.
unfoldable pub local_name : String → Option String
local_name spec = if refused_name (trim_space spec) then none else some (trim_space spec)

-- What stands before the first character of this code, and what after it.
abbrev before_first : Char → String × Option String → String × Option String
before_first c p = (String.◌∷◌ c p.0, p.1)

unfoldable pub split_first : ℕ → String → String × Option String
split_first k String.[] = ("", none)
split_first k (String.◌∷◌ c s) =
    let later = before_first c (split_first k s) in if eqb (code c) k then ("", some s) else later

abbrev pub is_alphanumeric : ℕ → Bool
is_alphanumeric c = is_letter c || is_digit c

-- [a-zA-Z0-9_.\-]
abbrev pub is_repo_char : ℕ → Bool
is_repo_char c = is_alphanumeric c || eqb c 95 || eqb c 46 || eqb c 45

abbrev pub is_segment : String → Bool
is_segment s = starts_and_all is_alphanumeric is_repo_char s && leb (text_length s) 100

abbrev pub is_ref : String → Bool
is_ref s =
    starts_and_all (λ c. is_alphanumeric c || eqb c 95 || eqb c 46)
      (λ c. is_repo_char c || eqb c 47) s
    && leb (text_length s) 255

pub record Repo : Type 0 where
  pub owner : String
  pub repo : String
  pub ref : String

abbrev pub repo_of : String → String × Option String → Option Repo
repo_of owner (repo, none) =
    if is_segment owner && is_segment repo
    then some (record { owner = owner; repo = repo; ref = "" })
    else none
repo_of owner (repo, some ref) =
    if is_segment owner && is_segment repo && is_ref ref
    then some (record { owner = owner; repo = repo; ref = ref })
    else none

abbrev pub repo_after : String × Option String → Option Repo
repo_after (owner, none) = none
repo_after (owner, some rest) = repo_of owner (split_first 35 rest)

-- repoRE.FindStringSubmatch on the spec of a github source
unfoldable pub match_repo : String → Option Repo
unfolding split_first
match_repo spec = repo_after (split_first 47 (trim_space spec))

-- The arguments of the call of git.
unfoldable pub git_args : String → String → Repo → List String
git_args base target r =
    "clone" ∷ "--depth=1" ∷ (if is_empty r.ref then [] else "--branch" ∷ r.ref ∷ [])
    ++ "--"
      ∷ concat base (concat "/" (concat r.owner (concat "/" (concat r.repo ".git"))))
      ∷ target
      ∷ []
