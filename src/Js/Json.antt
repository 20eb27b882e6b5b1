-- ===== src/Js/Json.antt =====
-- JSON values as `JSON.parse` yields them, with the operators that the program applies to a value
-- of type `unknown`. `none` is `undefined`.
use semantic_layer_explore.Prelude.{
  String, Bool, true, false, Option, none, some, List, [], ◌∷◌, ◌==◌, if◌then◌else◌, not, ◌≡◌, refl,
  arith, eq_iff,
}
use semantic_layer_explore.Js.Number.{Number, same, finite, pos}

mutual
  pub data Json : Type 0 where
    null : Json
    boolean : Bool → Json
    number : Number → Json
    string : String → Json
    array : Items → Json
    object : Fields → Json

  pub data Items : Type 0 where
    nil : Items
    cons : Json → Items → Items

  pub data Fields : Type 0 where
    end : Fields
    field : String → Json → Fields → Fields

-- The value of a key. `JSON.parse` leaves one field for each key.
unfoldable pub get_field : String → Fields → Option Json
get_field k end = none
get_field k (field j v rest) = if j == k then some v else get_field k rest

-- `value.key` on a value that is neither `null` nor `undefined`. The keys that the program reads
-- are none of the properties of arrays, texts and numbers.
unfoldable pub property : String → Json → Option Json
unfolding get_field
property k (object fs) = get_field k fs
property k _ = none

-- `Boolean(value)`
unfoldable pub truthy : Option Json → Bool
unfolding same
truthy none = false
truthy (some null) = false
truthy (some (boolean b)) = b
truthy (some (number (Number.nan))) = false
truthy (some (number n)) = not (same n (finite (pos 0)))
truthy (some (string s)) = not (s == "")
truthy (some _) = true

-- `typeof value === "object"`, for a value that is not `null`.
unfoldable pub is_object : Option Json → Bool
is_object (some (object _)) = true
is_object (some (array _)) = true
is_object (some null) = true
is_object _ = false

-- `Array.isArray(value)`
unfoldable pub is_array : Option Json → Bool
is_array (some (array _)) = true
is_array _ = false

-- `typeof value === "string"`, `"number"`, `"boolean"`
unfoldable pub is_string : Option Json → Bool
is_string (some (string _)) = true
is_string _ = false

unfoldable pub is_number : Option Json → Bool
is_number (some (number _)) = true
is_number _ = false

unfoldable pub is_boolean : Option Json → Bool
is_boolean (some (boolean _)) = true
is_boolean _ = false

-- `value === "text"`
unfoldable pub is_text : String → Option Json → Bool
is_text t (some (string s)) = s == t
is_text t _ = false

abbrev same_bool : Bool → Bool → Bool
same_bool true b = b
same_bool false b = not b

-- `a === b` on two parsed values: two objects that were parsed apart are never the same.
unfoldable pub strict_equal : Json → Json → Bool
unfolding same
strict_equal null null = true
strict_equal (boolean a) (boolean b) = same_bool a b
strict_equal (number a) (number b) = same a b
strict_equal (string a) (string b) = a == b
strict_equal _ _ = false

-- An object literal, and a field that an `undefined` value leaves out of the text of the object.
unfoldable pub object_of : List (String × Option Json) → Fields
object_of [] = end
object_of ((k, none) ∷ rest) = object_of rest
object_of ((k, some v) ∷ rest) = field k v (object_of rest)

unfoldable pub items_of : List Json → Items
items_of [] = nil
items_of (v ∷ rest) = cons v (items_of rest)

-- `{ ...fields, key: value }`
unfoldable pub set_field : String → Json → Fields → Fields
set_field k v end = field k v end
set_field k v (field j w rest) = if j == k then field k v rest else field j w (set_field k v rest)

pub get_field-set_field :
    (k j : String) (v : Json) (fs : Fields)
    → get_field j (set_field k v fs) ≡ (if k == j then some v else get_field j fs)
unfolding get_field set_field
get_field-set_field k j v end = refl
get_field-set_field k j v (field i w rest) =
    ground (arith, eq_iff k j, eq_iff i k, eq_iff i j, get_field-set_field k j v rest)
