-- ===== src/Json/Members.antt =====
-- Reading a JSON value back, as encoding/json fills a struct: a member that is not there leaves the
-- zero value.
use pangolin_gateway.Prelude.{
  Bool, Bool-cases, List, Option, String, [], ap, false, if◌then◌else◌, inl, inr, none, refl, some,
  sym, ℕ, ◌==◌, ◌∷◌, ◌≡◌, ==_sound, string_eq, nat_eq,
}
use pangolin_gateway.Json.{
  Fields, Items, Json, fields, items, nonempty_arr, nonempty_map, nonempty_num, nonempty_str, opt,
  by_key, pointer,
}
use pangolin_gateway.Map.{Map}
use pangolin_gateway.Order.{stable_sort}

unfoldable pub member : String → Fields → Option Json
member key Fields.end = none
member key (Fields.field k v rest) = if k == key then some v else member key rest

abbrev pub first_of : Option Json → Option Json → Option Json
first_of none later = later
first_of (some v) later = some v

pub member-opt :
    (key k : String) (o : Option Json) (rest : Fields)
    → member key (opt k o rest)
      ≡ (if k == key then first_of o (member key rest) else member key rest)
unfolding member opt
member-opt key k none rest = elim (Bool-cases (k == key)) [
  | inl same ↦ rw same refl
  | inr other ↦ rw other refl
]
member-opt key k (some v) rest = refl

pub first_of-none : (o : Option Json) → first_of o none ≡ o
first_of-none none = refl
first_of-none (some v) = refl

unfoldable pub members_of : Json → Fields
members_of (Json.obj fs) = fs
members_of _ = Fields.end

unfoldable pub read_str : Option Json → String
read_str (some (Json.str s)) = s
read_str _ = ""

unfoldable pub read_num : Option Json → ℕ
read_num (some (Json.num n)) = n
read_num _ = 0

unfoldable pub read_bool : Option Json → Bool
read_bool (some (Json.bool b)) = b
read_bool _ = false

module _ {T : Type 0} (read : Json → T) where
  unfoldable pub read_pointer : Option Json → Option T
  read_pointer none = none
  read_pointer (some j) = some (read j)

  unfoldable pub read_items : Items → List T
  read_items Items.nil = []
  read_items (Items.cons j js) = read j ∷ read_items js

  unfoldable pub read_arr : Option Json → List T
  unfolding read_items
  read_arr (some (Json.arr js)) = read_items js
  read_arr _ = []

  unfoldable pub read_fields : Fields → Map String T
  read_fields Fields.end = []
  read_fields (Fields.field k j rest) = (k, read j) ∷ read_fields rest

  unfoldable pub read_map : Option Json → Map String T
  unfolding read_fields
  read_map (some (Json.obj fs)) = read_fields fs
  read_map _ = []

pub read_str-nonempty : (s : String) → read_str (nonempty_str s) ≡ s
unfolding read_str
read_str-nonempty s = elim (Bool-cases (s == "")) [
  | inl empty ↦ rw empty (sym (==_sound s "" empty))
  | inr full ↦ rw full refl
]

pub read_num-nonempty : (n : ℕ) → read_num (nonempty_num n) ≡ n
unfolding read_num
read_num-nonempty n = elim (Bool-cases (n == 0)) [
  | inl empty ↦ rw empty (sym (==_sound n 0 empty))
  | inr full ↦ rw full refl
]

module _ {T : Type 0} (read : Json → T) (write : T → Json)
    (back : (x : T) → read (write x) ≡ x) where
  pub read_pointer-pointer : (o : Option T) → read_pointer read (pointer write o) ≡ o
  unfolding read_pointer
  read_pointer-pointer none = refl
  read_pointer-pointer (some x) = ap some (back x)

  pub read_items-items : (xs : List T) → read_items read (items write xs) ≡ xs
  unfolding read_items items
  read_items-items [] = refl
  read_items-items (x ∷ xs) = cc (back x, read_items-items xs)

  pub read_arr-nonempty : (xs : List T) → read_arr read (nonempty_arr write xs) ≡ xs
  unfolding read_arr
  read_arr-nonempty [] = refl
  read_arr-nonempty (x ∷ xs) = read_items-items (x ∷ xs)

  pub read_fields-fields : (m : Map String T) → read_fields read (fields write m) ≡ m
  unfolding read_fields fields
  read_fields-fields [] = refl
  read_fields-fields ((k, x) ∷ m) = cc (back x, read_fields-fields m)

  pub read_map-nonempty : (m : Map String T) → read_map read (nonempty_map write m) ≡ by_key m
  unfolding read_map stable_sort
  read_map-nonempty [] = refl
  read_map-nonempty (e ∷ m) = read_fields-fields (by_key (e ∷ m))
