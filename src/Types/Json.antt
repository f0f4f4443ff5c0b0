-- ===== src/Types/Json.antt =====
-- What `unknown` stands for in a parsed response body. A number is its decimal text.
use greenlink.Prelude.{Bool, String, Option, none, some, if◌then◌else◌, ◌==◌, string_eq}

mutual
  pub data Json : Type 0 where
    null : Json
    bool : Bool → Json
    num : String → Json
    str : String → Json
    arr : Items → Json
    obj : Fields → Json

  pub data Items : Type 0 where
    nil : Items
    cons : Json → Items → Items

  pub data Fields : Type 0 where
    end : Fields
    field : String → Json → Fields → Fields

-- The member of a name. JSON.parse keeps the last of several.
abbrev pub get_field : String → Fields → Option Json
get_field name end = none
get_field name (field key value fields) =
    let later = get_field name fields in
    elim later [ some v ↦ some v | none ↦ if key == name then some value else none ]

-- value.name, where a value that is no object has no members
abbrev pub member : String → Option Json → Option Json
member name (some (obj fields)) = get_field name fields
member name _ = none

-- value, where typeof value === "string"
abbrev pub as_text : Option Json → Option String
as_text (some (str s)) = some s
as_text _ = none

abbrev pub first_item : Option Json → Option Json
first_item (some (arr (cons item _))) = some item
first_item _ = none

abbrev last_of : Json → Items → Json
last_of item nil = item
last_of item (cons next items) = last_of next items

abbrev pub last_item : Option Json → Option Json
last_item (some (arr (cons item items))) = some (last_of item items)
last_item _ = none
