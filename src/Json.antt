-- ===== src/Json.antt =====
-- JSON values, which belong to the nlohmann library: a parameter `J` with the operations that the
-- server calls, and `reject_unknown_keys` of src/server/internal_utils.hpp.
pub mod Members
pub mod Given
use zoo_keeper_server.Prelude.{
  ℕ, Bytes, ◌≡◌, Bool, true, false, ◌||◌, Option, none, some, List, [], ◌∷◌, ◌++◌, if◌then◌else◌,
  ◌==ᵇ◌, has_value, text,
}
use zoo_keeper_server.Api.{Expected, ok, err}

-- What a value is. A number shows its kind alone; `JsonApi` converts it.
pub data View (J : Type 0) : Type 0 where
  null unsigned integer float : View J
  boolean : Bool → View J
  string : Bytes → View J
  array : List J → View J
  object : List (Bytes × J) → View J

-- The first member of that name.
unfoldable pub member : {J : Type 0} → Bytes → List (Bytes × J) → Option J
member k [] = none
member k ((j, v) ∷ m) = if j ==ᵇ k then some v else member k m

-- The operations, and what is relied on of them. `R` is the type `float`, and `I` is `int`.
-- `order` is the order in which the library keeps the members of an object: a `std::map`, where
-- the first of two members with the same name stays. `dump_throws` says that `dump` throws, as it
-- does for a value with a string that is not UTF-8; what `dump` gives then is never used.
pub record JsonApi (J R I : Type 0) : Type 0 where
  pub view : J → View J
  pub parse : Bytes → Expected Bytes J
  pub dump : J → Bytes
  pub dump_throws : J → Bool
  pub get_float : J → R
  pub get_int : J → I
  pub from_null : J
  pub from_bool : Bool → J
  pub from_unsigned : ℕ → J
  pub from_float : R → J
  pub from_string : Bytes → J
  pub from_array : List J → J
  pub from_object : List (Bytes × J) → J
  pub order : List (Bytes × J) → List (Bytes × J)
  pub view-from_string : (s : Bytes) → view (from_string s) ≡ string s
  pub view-from_array : (js : List J) → view (from_array js) ≡ array js
  pub view-from_object : (m : List (Bytes × J)) → view (from_object m) ≡ object (order m)
  pub member-order : (k : Bytes) (m : List (Bytes × J)) → member k (order m) ≡ member k m

abbrev pub is_object : {J : Type 0} → View J → Bool
is_object (object m) = true
is_object _ = false

abbrev pub is_boolean : {J : Type 0} → View J → Bool
is_boolean (boolean b) = true
is_boolean _ = false

abbrev pub is_number : {J : Type 0} → View J → Bool
is_number unsigned = true
is_number integer = true
is_number float = true
is_number _ = false

abbrev pub is_number_integer : {J : Type 0} → View J → Bool
is_number_integer unsigned = true
is_number_integer integer = true
is_number_integer _ = false

abbrev pub is_number_unsigned : {J : Type 0} → View J → Bool
is_number_unsigned unsigned = true
is_number_unsigned _ = false

abbrev pub is_string : {J : Type 0} → View J → Bool
is_string (string s) = true
is_string _ = false

-- A test followed by `get`: the contents, if the value is of the kind.
abbrev pub as_string : {J : Type 0} → View J → Option Bytes
as_string (string s) = some s
as_string _ = none

abbrev pub as_boolean : {J : Type 0} → View J → Option Bool
as_boolean (boolean b) = some b
as_boolean _ = none

abbrev pub as_array : {J : Type 0} → View J → Option (List J)
as_array (array js) = some js
as_array _ = none

abbrev pub as_object : {J : Type 0} → View J → Option (List (Bytes × J))
as_object (object m) = some m
as_object _ = none

-- What iteration, `contains` and `find` see: a value that is no object has no members.
abbrev pub members : {J : Type 0} → View J → List (Bytes × J)
members (object m) = m
members _ = []

-- `std::find` in the allowed keys.
unfoldable pub is_allowed : Bytes → List Bytes → Bool
is_allowed k [] = false
is_allowed k (a ∷ allowed) = a ==ᵇ k || is_allowed k allowed

-- The loop over the members.
unfoldable pub reject_members :
    {J : Type 0} → List Bytes → Bytes → List (Bytes × J) → Expected Bytes (Unit {0})
reject_members allowed context [] = ok tt
reject_members allowed context ((k, v) ∷ m) =
    if is_allowed k allowed
    then reject_members allowed context m
    else err (text "Unknown " ++ (context ++ (text " key: " ++ k)))

unfoldable pub reject_unknown_keys :
    {J : Type 0} → View J → Bytes → List Bytes → Expected Bytes (Unit {0})
reject_unknown_keys (object m) context allowed = reject_members allowed context m
reject_unknown_keys _ context allowed = err (context ++ text " must be a JSON object")

module _ {J R I : Type 0} (json : JsonApi J R I) where
  -- A test of the kind, and the value as that kind.
  abbrev pub string_of : J → Option Bytes
  string_of j = as_string (json.view j)

  abbrev pub array_of : J → Option (List J)
  array_of j = as_array (json.view j)

  abbrev pub object_of : J → Option J
  object_of j = if is_object (json.view j) then some j else none

  -- `!contains(key) || !at(key).is_…()`, and then the value.
  unfoldable pub required : {A E : Type 0} → (J → Option A) → Bytes → J → E → Expected E A
  required read key j e = elim (member key (members (json.view j))) [
    | none ↦ err e
    | some v ↦ elim (read v) [ none ↦ err e | some a ↦ ok a ]
  ]

  abbrev pub contains : Bytes → J → Bool
  contains key j = has_value (member key (members (json.view j)))

  abbrev pub float_of : J → Option R
  float_of j = if is_number (json.view j) then some (json.get_float j) else none

  abbrev pub int_of : J → Option I
  int_of j = if is_number_integer (json.view j) then some (json.get_int j) else none

  abbrev pub boolean_of : J → Option Bool
  boolean_of j = as_boolean (json.view j)

  -- `if (auto it = json.find(key); …)`: absent, or of the kind, or the error.
  unfoldable pub optional : {A E : Type 0} → (J → Option A) → Bytes → J → E → Expected E (Option A)
  optional read key j e = elim (member key (members (json.view j))) [
    | none ↦ ok none
    | some v ↦ elim (read v) [ none ↦ err e | some a ↦ ok (some a) ]
  ]
