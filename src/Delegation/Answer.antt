-- ===== src/Delegation/Answer.antt =====
-- extractResponseText of handlers/delegation.go, over parsed JSON.
use starfire_agent_team.Prelude.{String, Option, none, some, if◌then◌else◌, some_eq}
use starfire_agent_team.Json.{
  Json, Items, Members, end, item, lookup, as_text, as_members, as_items,
}

abbrev part_text : Option Members → Option String
part_text none = none
part_text (some ms) =
    if some_eq (as_text (lookup "kind" ms)) "text" then as_text (lookup "text" ms) else none

abbrev or_option : Option String → Option String → Option String
or_option (some s) o = some s
or_option none o = o

-- The first part of kind `text`.
unfoldable pub first_text : Items → Option String
first_text end = none
first_text (item v vs) = or_option (part_text (as_members (some v))) (first_text vs)

abbrev parts_text : Option Members → Option String
parts_text none = none
parts_text (some ms) = elim (as_items (lookup "parts" ms)) [ none ↦ none | some vs ↦ first_text vs ]

unfoldable pub first_artifact_text : Items → Option String
first_artifact_text end = none
first_artifact_text (item v vs) =
    or_option (parts_text (as_members (some v))) (first_artifact_text vs)

abbrev artifacts_text : Members → Option String
artifacts_text ms = elim (as_items (lookup "artifacts" ms)) [
  | none ↦ none
  | some vs ↦ first_artifact_text vs
]

abbrev result_text : Option Members → Option String
result_text none = none
result_text (some ms) = or_option (parts_text (some ms)) (artifacts_text ms)

abbrev result_of : Option Members → Option Members
result_of none = none
result_of (some ms) = as_members (lookup "result" ms)

abbrev text_or : String → Option String → String
text_or body none = body
text_or body (some s) = s

-- `unmarshal` is json.Unmarshal, `none` for its error.
unfoldable pub extract_response_text : (String → Option Json) → String → String
unfolding first_text first_artifact_text
extract_response_text unmarshal body =
    text_or body (result_text (result_of (as_members (unmarshal body))))
