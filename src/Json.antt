-- ===== src/Json.antt =====
-- JSON values, and how encoding/json lays out structs and maps: the fields of a struct in their order,
-- without the empty ones that are tagged omitempty, and the keys of a map in sorted order.
pub mod Members
use Prim.Native.String.{compare}
use pangolin_gateway.Prelude.{
  Bool, List, Option, String, [], false, if◌then◌else◌, none, some, true, ℕ, ◌==◌, ◌∷◌, string_eq,
  nat_eq,
}
use pangolin_gateway.Map.{Map}
use pangolin_gateway.Order.{stable_sort}

mutual
  pub data Json : Type 0 where
    null : Json
    bool : Bool → Json
    num : ℕ → Json
    str : String → Json
    arr : Items → Json
    obj : Fields → Json

  pub data Items : Type 0 where
    nil : Items
    cons : Json → Items → Items

  pub data Fields : Type 0 where
    end : Fields
    field : String → Json → Fields → Fields

-- A field that may be left out.
unfoldable pub opt : String → Option Json → Fields → Fields
opt key none rest = rest
opt key (some value) rest = field key value rest

-- The values that omitempty leaves out are none.
abbrev pub nonempty_str : String → Option Json
nonempty_str s = if s == "" then none else some (Json.str s)

abbrev pub nonempty_num : ℕ → Option Json
nonempty_num n = if n == 0 then none else some (Json.num n)

unfoldable pub items : {T : Type 0} → (T → Json) → List T → Items
items f [] = Items.nil
items f (x ∷ xs) = Items.cons (f x) (items f xs)

abbrev pub nonempty_arr : {T : Type 0} → (T → Json) → List T → Option Json
nonempty_arr f [] = none
nonempty_arr f (x ∷ xs) = some (Json.arr (items f (x ∷ xs)))

-- A pointer.
abbrev pub pointer : {T : Type 0} → (T → Json) → Option T → Option Json
pointer f none = none
pointer f (some x) = some (f x)

unfoldable pub fields : {T : Type 0} → (T → Json) → Map String T → Fields
fields f [] = Fields.end
fields f ((key, x) ∷ m) = Fields.field key (f x) (fields f m)

abbrev pub by_key : {T : Type 0} → Map String T → Map String T
by_key m = stable_sort (λ a b. compare a.0 b.0) m

abbrev pub map_json : {T : Type 0} → (T → Json) → Map String T → Json
map_json f m = Json.obj (fields f (by_key m))

-- A map that is left out when it is empty.
abbrev pub nonempty_map : {T : Type 0} → (T → Json) → Map String T → Option Json
nonempty_map f [] = none
nonempty_map f (e ∷ m) = some (map_json f (e ∷ m))
