-- ===== src/Json.antt =====
-- JSON values as encoding/json reads them into interface{}.
use starfire_agent_team.Prelude.{String, Bool, Option, none, some, if◌then◌else◌, ◌==◌}

-- A JSON value; a number is kept as its text.
mutual
  pub data Json : Type 0 where
    null : Json
    bool : Bool → Json
    number text : String → Json
    array : Items → Json
    object : Members → Json

  pub data Items : Type 0 where
    end : Items
    item : Json → Items → Items

  pub data Members : Type 0 where
    empty : Members
    member : String → Json → Members → Members

-- m[key]
abbrev pub lookup : String → Members → Option Json
lookup k empty = none
lookup k (member n v ms) = let rest = lookup k ms in if n == k then some v else rest

-- v.(string), v.(map[string]interface{}), v.([]interface{}); a nil interface is none of them.
abbrev pub as_text : Option Json → Option String
as_text (some (text s)) = some s
as_text _ = none

abbrev pub as_members : Option Json → Option Members
as_members (some (object ms)) = some ms
as_members _ = none

abbrev pub as_items : Option Json → Option Items
as_items (some (array xs)) = some xs
as_items _ = none
