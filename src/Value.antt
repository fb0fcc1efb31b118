-- ===== src/Value.antt =====
-- The Python values that payloads hold: what JSON has. Floats do not occur in the model.
use db_connections.Dict.{Dict}
use db_connections.Int.{pos, ℤ, ◌==ℤ◌}
use db_connections.Prelude.{
  Bool, List, Option, String, [], ap, false, if◌then◌else◌, leb, none, not, refl, some, suc, true,
  truthy, ℕ, ◌&&◌, ◌==◌, ◌∷◌, ◌≡◌,
}

mutual
  pub data Value : Type 0 where
    null : Value
    bool : Bool → Value
    int : ℤ → Value
    str : String → Value
    list : Items → Value
    dict : Fields → Value

  pub data Items : Type 0 where
    nil : Items
    cons : Value → Items → Items

  pub data Fields : Type 0 where
    end : Fields
    field : String → Value → Fields → Fields

-- a dictionary value and its items
abbrev pub items : Fields → Dict Value
items end = []
items (field k v fs) = (k, v) ∷ items fs

abbrev pub fields_of : Dict Value → Fields
fields_of [] = end
fields_of ((k, v) ∷ d) = field k v (fields_of d)

abbrev pub of_dict : Dict Value → Value
of_dict d = dict (fields_of d)

abbrev pub of_list : List Value → Items
of_list [] = nil
of_list (x ∷ xs) = cons x (of_list xs)

pub items-fields_of : (d : Dict Value) → items (fields_of d) ≡ d
items-fields_of [] = refl
items-fields_of ((k, v) ∷ d) = ap (λ e. (k, v) ∷ e) (items-fields_of d)

-- an optional text as a value
abbrev pub of_text : Option String → Value
of_text none = null
of_text (some s) = str s

abbrev pub is_str : Value → Bool
is_str (str s) = true
is_str _ = false

abbrev pub is_null : Value → Bool
is_null null = true
is_null _ = false

abbrev pub as_int : Bool → ℤ
as_int true = pos 1
as_int false = pos 0

-- `bool(v)`
abbrev pub truthy_value : Value → Bool
truthy_value null = false
truthy_value (bool b) = b
truthy_value (int z) = not (z ==ℤ pos 0)
truthy_value (str s) = truthy s
truthy_value (list nil) = false
truthy_value (list (cons x xs)) = true
truthy_value (dict end) = false
truthy_value (dict (field k v fs)) = true

-- `type(v).__name__`
abbrev pub type_name : Value → String
type_name null = "NoneType"
type_name (bool b) = "bool"
type_name (int z) = "int"
type_name (str s) = "str"
type_name (list xs) = "list"
type_name (dict fs) = "dict"

abbrev pub field_get : String → Fields → Option Value
field_get k end = none
field_get k (field j v fs) = if j == k then some v else field_get k fs

abbrev pub field_count : Fields → ℕ
field_count end = 0
field_count (field k v fs) = suc (field_count fs)

-- `a == b`: a Boolean is also an integer, and dictionaries are compared without their order.
unfoldable mutual
  pub value_eq : Value → Value → Bool
  value_eq null w = is_null w
  value_eq (bool b) w = elim w [
    | bool c ↦ as_int b ==ℤ as_int c
    | int z ↦ as_int b ==ℤ z
    | _ ↦ false
  ]
  value_eq (int y) w = elim w [ bool c ↦ y ==ℤ as_int c | int z ↦ y ==ℤ z | _ ↦ false ]
  value_eq (str s) w = elim w [ str t ↦ s == t | _ ↦ false ]
  value_eq (list xs) w = elim w [ list ys ↦ items_eq xs ys | _ ↦ false ]
  value_eq (dict fs) w = elim w [
    | dict gs ↦ leb (field_count gs) (field_count fs) && fields_eq fs gs
    | _ ↦ false
  ]

  pub items_eq : Items → Items → Bool
  items_eq nil w = elim w [ nil ↦ true | _ ↦ false ]
  items_eq (cons x xs) w = elim w [ nil ↦ false | cons y ys ↦ value_eq x y && items_eq xs ys ]

  -- every item of the one dictionary is an item of the other
  pub fields_eq : Fields → Fields → Bool
  fields_eq end gs = true
  fields_eq (field k v fs) gs = elim (field_get k gs) [
    | none ↦ false
    | some w ↦ value_eq v w && fields_eq fs gs
  ]

value_eq_unordered :
    value_eq
      (dict (field "a" (int (pos 1)) (field "b" null end)))
      (dict (field "b" null (field "a" (bool true) end)))
    ≡ true
unfolding value_eq
value_eq_unordered = refl
