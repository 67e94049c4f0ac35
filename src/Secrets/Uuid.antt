-- ===== src/Secrets/Uuid.antt =====
-- uuidRegex of handlers/secrets.go: 8, 4, 4, 4 and 12 hexadecimal digits between dashes.
use Prim.Native.Char.{code}
use starfire_agent_team.Prelude.{
  ℕ, zero, suc, String, Bool, false, ◌&&◌, ◌||◌, Option, none, some, if◌then◌else◌, leb, eqb,
}
use starfire_agent_team.Text.{is_empty}

abbrev is_hex : ℕ → Bool
is_hex c = (leb 48 c && leb c 57) || (leb 97 c && leb c 102)

-- What follows n digits.
unfoldable pub after_hex : ℕ → String → Option String
after_hex zero s = some s
after_hex (suc n) String.[] = none
after_hex (suc n) (String.◌∷◌ c s) =
    let rest = after_hex n s in if is_hex (code c) then rest else none

abbrev after_dash : Option String → Option String
after_dash none = none
after_dash (some String.[]) = none
after_dash (some (String.◌∷◌ c s)) = if eqb (code c) 45 then some s else none

abbrev then_hex : ℕ → Option String → Option String
then_hex n none = none
then_hex n (some s) = after_hex n s

abbrev at_end : Option String → Bool
at_end none = false
at_end (some s) = is_empty s

unfoldable pub is_uuid : String → Bool
unfolding after_hex
is_uuid s = at_end (
    then_hex 12 (
      after_dash (
        then_hex 4
          (after_dash (then_hex 4 (after_dash (then_hex 4 (after_dash (after_hex 8 s)))))))))
