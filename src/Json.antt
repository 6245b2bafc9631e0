-- ===== src/Json.antt =====
-- The values that JSON.parse returns, `unknown` in the program. An object is its fields in insertion
-- order; a field whose value is `undefined` is absent. Only whole numbers occur, as the program reads
-- sequence numbers, counts and exit codes from them.
use hugin_agent.Prelude.{ℕ, String, Bool, Option, none, some, List, [], ◌∷◌, str_eq, if◌then◌else◌}

-- `minus n` is -(n + 1).
pub data Number : Type 0 where
  whole : ℕ → Number
  minus : ℕ → Number

mutual
  pub data Json : Type 0 where
    null : Json
    bool : Bool → Json
    num : Number → Json
    str : String → Json
    arr : Items → Json
    obj : Fields → Json

  pub data Items : Type 0 where
    nil : Items
    cons : Json → Items → Items

  pub data Fields : Type 0 where
    end : Fields
    field : String → Json → Fields → Fields

-- `value[key]`, `undefined` read as `none`.
unfoldable pub get_field : Fields → String → Option Json
get_field end key = none
get_field (field k v rest) key = if str_eq k key then some v else get_field rest key

unfoldable pub item_list : Items → List Json
item_list nil = []
item_list (cons v vs) = v ∷ item_list vs

-- An object, that is neither `null` nor an array.
abbrev pub as_object : Json → Option Fields
as_object (obj fs) = some fs
as_object _ = none

abbrev pub as_string : Json → Option String
as_string (str s) = some s
as_string _ = none

abbrev as_array : Json → Option Items
as_array (arr vs) = some vs
as_array _ = none

abbrev pub as_bool : Json → Option Bool
as_bool (bool b) = some b
as_bool _ = none
