-- ===== src/Api/Message.antt =====
-- `extractErrorMessage` of frontend/src/api/client.ts: the text of a refusal.
use greenlink.Prelude.{String, Option, none, some, if◌then◌else◌, string_eq, nat_eq}
use greenlink.Prelude.Text.{◌++ₛ◌, truthy, is_blank}
use greenlink.Types.Json.{Json, member, as_text, first_item, last_item}
use greenlink.Sheet.Occupancy.{get_or, or_else}

abbrev field_message : Option String → Option String → String
field_message (some field) (some msg) =
    if truthy msg then field ++ₛ ": " ++ₛ msg else "Request failed"
field_message none (some msg) = if truthy msg then msg else "Request failed"
field_message _ none = "Request failed"

-- The message of the first issue in an array of them.
abbrev issue_message : Option Json → String
issue_message issue =
    field_message (as_text (last_item (member "loc" issue))) (as_text (member "msg" issue))

abbrev text_unless_blank : Option Json → Option String
text_unless_blank value = elim (as_text value) [
  | none ↦ none
  | some s ↦ if is_blank s then none else some s
]

-- Members of another type than the declared one are read as absent.
unfoldable pub extract_error_message : Option Json → String
extract_error_message body =
    get_or
      (or_else (text_unless_blank (member "message" body))
        (text_unless_blank (member "detail" body)))
      (issue_message (first_item (member "detail" body)))
