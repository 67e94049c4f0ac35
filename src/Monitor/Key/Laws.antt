-- ===== src/Monitor/Key/Laws.antt =====
-- Which keys the monitor acts on.
use Prim.Native.Char.{Char}
use text.Mathlib.TextLemmas.{cons-append, nil-append}
use starfire_agent_team.Prelude.{
  String, true, ◌≡◌, refl, none, some, concat, arith, if◌then◌else◌, ◌||◌, ℕ, ◌∙◌,
}
use starfire_agent_team.Text.{drop_chars, contains_char}
use starfire_agent_team.Monitor.Key.{liveness_key, url_key, internal_url_key, expired_workspace}
use text.Mathlib.TextPositions.{starts_with-append}

drop_three :
    (a b c : Char) (s : String)
    → drop_chars 3 (concat (String.◌∷◌ a (String.◌∷◌ b (String.◌∷◌ c ""))) s) ≡ s
unfolding drop_chars
drop_three a b c s = rw (cons-append, cons-append, cons-append, nil-append) refl

drop-ws : (s : String) → drop_chars 3 (concat "ws:" s) ≡ s
unfolding drop_chars
drop-ws s = drop_three "w" "s" ":" s

read_key :
    (s : String)
    → expired_workspace (concat "ws:" s) ≡ (if contains_char b':' s then none else some s)
unfolding expired_workspace
read_key s = rw (starts_with-append, drop-ws) refl

contains_char-concat :
    (k : ℕ) (s t : String) → contains_char k (concat s t) ≡ (contains_char k s || contains_char k t)
unfolding contains_char
contains_char-concat k String.[] t = rw nil-append refl
contains_char-concat k (String.◌∷◌ c s) t =
    rw cons-append (ground (arith, contains_char-concat k s t))

has_colon-url : (i : String) → contains_char b':' (concat i ":url") ≡ true
unfolding contains_char
has_colon-url i = ground (arith, contains_char-concat b':' i ":url")

has_colon-internal_url : (i : String) → contains_char b':' (concat i ":internal_url") ≡ true
unfolding contains_char
has_colon-internal_url i = ground (arith, contains_char-concat b':' i ":internal_url")

-- The monitor reads the id back from a liveness key, unless the id has a colon in it, and acts on
-- no key of a cached URL.
pub expired_workspace_keys :
    (i : String)
    → (expired_workspace (liveness_key i) ≡ (if contains_char b':' i then none else some i))
      × (expired_workspace (url_key i) ≡ none)
      × (expired_workspace (internal_url_key i) ≡ none)
unfolding liveness_key url_key internal_url_key
expired_workspace_keys i = (
  read_key i,
  read_key (concat i ":url") ∙ rw (has_colon-url i) refl,
  read_key (concat i ":internal_url") ∙ rw (has_colon-internal_url i) refl,
)
