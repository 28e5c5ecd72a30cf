-- ===== src/Tests/Json.antt =====
-- A small JSON library, which reads every text that is not empty as one given document.
use zoo_keeper_server.Prelude.{
  ℕ, ◌≡◌, refl, Bytes, Bool, List, [], ◌∷◌, is_empty, if◌then◌else◌, text,
}
use zoo_keeper_server.Api.{ok, err}
use zoo_keeper_server.Json.{View, JsonApi}

mutual
  pub data Value : Type 0 where
    nothing : Value
    truth : Bool → Value
    number : ℕ → Value
    words : Bytes → Value
    items : Items → Value
    fields : Fields → Value

  pub data Items : Type 0 where
    end : Items
    item : Value → Items → Items

  pub data Fields : Type 0 where
    done : Fields
    field : Bytes → Value → Fields → Fields

abbrev item_list : Items → List Value
item_list end = []
item_list (item v is) = v ∷ item_list is

abbrev list_items : List Value → Items
list_items [] = end
list_items (v ∷ vs) = item v (list_items vs)

abbrev field_list : Fields → List (Bytes × Value)
field_list done = []
field_list (field k v m) = (k, v) ∷ field_list m

abbrev list_fields : List (Bytes × Value) → Fields
list_fields [] = done
list_fields ((k, v) ∷ m) = field k v (list_fields m)

pub item_list-list_items : (vs : List Value) → item_list (list_items vs) ≡ vs
item_list-list_items [] = refl
item_list-list_items (v ∷ vs) = rw (item_list-list_items vs)

pub field_list-list_fields : (m : List (Bytes × Value)) → field_list (list_fields m) ≡ m
field_list-list_fields [] = refl
field_list-list_fields ((k, v) ∷ m) = rw (field_list-list_fields m)

abbrev value_view : Value → View Value
value_view nothing = View.null
value_view (truth b) = View.boolean b
value_view (number n) = View.unsigned
value_view (words s) = View.string s
value_view (items is) = View.array (item_list is)
value_view (fields m) = View.object (field_list m)

abbrev number_of : Value → ℕ
number_of (number n) = n
number_of _ = 0

-- A document of JSON values, from its members.
abbrev pub document : List (Bytes × Value) → Value
document m = fields (list_fields m)

abbrev pub listed : List Value → Value
listed vs = items (list_items vs)

abbrev pub library : Value → JsonApi Value ℕ ℕ
library only = record {
  view = value_view;
  parse = λ body. if is_empty body then err (text "unexpected end of input") else ok only;
  dump = λ v. text "json";
  dump_throws = λ v. Bool.false;
  get_float = number_of;
  get_int = number_of;
  from_null = nothing;
  from_bool = truth;
  from_unsigned = number;
  from_float = number;
  from_string = words;
  from_array = listed;
  from_object = document;
  order = λ m. m;
  view-from_string = λ s. refl;
  view-from_array = λ js. rw (item_list-list_items js);
  view-from_object = λ m. rw (field_list-list_fields m);
  member-order = λ k m. refl;
}
