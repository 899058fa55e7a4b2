-- ===== src/Json.antt =====
-- JSON documents: what `json` reads and the capability schemas, inputs and route payloads are made
-- of. Numbers are integers; a document with fractions is not modelled.
use grantora.Prelude.{
  ℕ, suc, String, Bool, true, false, ◌&&◌, Option, none, some, List, [], ◌∷◌, ℤ, pos, int_beq, ◌==◌,
  nat_eq, string_eq, if◌then◌else◌,
}

mutual
  pub data Json : Type 0 where
    null : Json
    bool : Bool → Json
    num : ℤ → Json
    str : String → Json
    arr : Items → Json
    obj : Fields → Json

  pub data Items : Type 0 where
    nil : Items
    cons : Json → Items → Items

  pub data Fields : Type 0 where
    end : Fields
    field : String → Json → Fields → Fields

-- `d.get(key)` of a dict.
abbrev pub field? : String → Fields → Option Json
field? key end = none
field? key (field k v fs) = if k == key then some v else field? key fs

-- `d.get(key)` of a value that may be no dict: `None` there too.
abbrev pub get? : String → Json → Option Json
get? key (obj fs) = field? key fs
get? key _ = none

-- `d.get(key)` with JSON's `null` for `None`.
abbrev pub or_null : Option Json → Json
or_null none = null
or_null (some v) = v

-- An integer that is no truth value.
abbrev pub as_int : Json → Option ℤ
as_int (num n) = some n
as_int _ = none

abbrev pub keys : Fields → List String
keys end = []
keys (field k v fs) = k ∷ keys fs

abbrev pub count_fields : Fields → ℕ
count_fields end = 0
count_fields (field k v fs) = suc (count_fields fs)

-- `d[key] = v`: a key that is there keeps its place.
abbrev pub set_field : String → Json → Fields → Fields
set_field key v end = field key v end
set_field key v (field k w fs) =
    let rest = field k w (set_field key v fs) in if k == key then field k v fs else rest

-- `{**base, **over}`.
abbrev pub merge : Fields → Fields → Fields
merge base end = base
merge base (field k v fs) = merge (set_field k v base) fs

abbrev pub is_obj : Json → Bool
is_obj (obj _) = true
is_obj _ = false

-- `x is False`, `x == "text"` for an optional value.
abbrev pub is_false : Option Json → Bool
is_false (some (bool false)) = true
is_false _ = false

abbrev pub is_str : String → Option Json → Bool
is_str s (some (str t)) = t == s
is_str s _ = false

abbrev is_number : Bool → ℤ → Bool
is_number b n = int_beq n (if b then pos 1 else pos 0)

-- Python's `==` of documents: dicts in any order, and `True == 1`.
unfoldable mutual
  pub json_eq : Json → Json → Bool
  json_eq null null = true
  json_eq (bool true) (bool true) = true
  json_eq (bool false) (bool false) = true
  json_eq (bool b) (num n) = is_number b n
  json_eq (num n) (bool b) = is_number b n
  json_eq (num m) (num n) = int_beq m n
  json_eq (str s) (str t) = s == t
  json_eq (arr xs) (arr ys) = items_eq xs ys
  json_eq (obj fs) (obj gs) = count_fields fs == count_fields gs && fields_in fs gs
  json_eq _ _ = false

  pub items_eq : Items → Items → Bool
  items_eq nil nil = true
  items_eq (cons x xs) (cons y ys) = json_eq x y && items_eq xs ys
  items_eq _ _ = false

  -- Every field of the first is in the second, with an equal value.
  pub fields_in : Fields → Fields → Bool
  fields_in end gs = true
  fields_in (field k v fs) gs =
      let rest = fields_in fs gs in
      elim (field? k gs) [ none ↦ false | some w ↦ json_eq v w && rest ]
