-- ===== src/Transform/Json.antt =====
-- The Go values that stand in an ARM template once `encoding/json` has read it, and the two kinds
-- of value that pkg/engine/transform/transform.go puts there.
use aks_engine.Common.{
  String, Bool, true, false, Option, none, some, List, [], ◌∷◌, if◌then◌else◌, ◌==◌, string_eq,
  Result, ok, err, ◌≡◌, refl, ap, eq_iff, arith,
}

mutual
  -- `arr` is []interface{} and `strs` is []string: a type assertion tells them apart. `number` holds
  -- the literal of a float64, and `managed_disk` the identifier of a *compute.ManagedDiskParameters.
  pub data Json : Type 0 where
    null : Json
    boolean : Bool → Json
    number : String → Json
    str : String → Json
    arr : Items → Json
    obj : Fields → Json
    strs : List String → Json
    managed_disk : String → Json

  pub data Items : Type 0 where
    nil : Items
    cons : Json → Items → Items

  -- map[string]interface{}
  pub data Fields : Type 0 where
    end : Fields
    field : String → Json → Fields → Fields

-- `duplicate` is "Found 2 resources with type %s in the template", and `panic` is a failed type
-- assertion, an index out of range or a write to a nil map.
pub data TransformError : Type 0 where
  duplicate : String → TransformError
  panic : TransformError

abbrev pub Outcome : Type 0 → Type 0
Outcome A = Result TransformError A

abbrev pub elements : Items → List Json
elements nil = []
elements (cons x xs) = x ∷ elements xs

abbrev pub items : List Json → Items
items [] = nil
items (x ∷ xs) = cons x (items xs)

-- m[k]: the value of a key that is absent is nil.
abbrev pub get : String → Fields → Json
get k end = null
get k (field j v m) = let rest = get k m in if j == k then v else rest

-- m[k] = v
abbrev pub put : String → Json → Fields → Fields
put k v end = field k v end
put k v (field j w m) = let rest = put k v m in if j == k then field j v m else field j w rest

-- delete(m, k)
abbrev pub remove : String → Fields → Fields
remove k end = end
remove k (field j w m) = let rest = remove k m in if j == k then rest else field j w rest

-- v, ok := x.(map[string]interface{}), x.([]interface{}) and x.(string)
abbrev pub as_map : Json → Option Fields
as_map (obj m) = some m
as_map _ = none

abbrev pub as_list : Json → Option (List Json)
as_list (arr xs) = some (elements xs)
as_list _ = none

abbrev pub as_string : Json → Option String
as_string (str s) = some s
as_string _ = none

-- The same without `ok`.
abbrev pub or_panic {ℓ} : {A : Type ℓ} → Option A → Result TransformError A
or_panic none = err panic
or_panic (some a) = ok a

-- x != nil
abbrev pub is_set : Json → Bool
is_set null = false
is_set _ = true

-- A write changes the value of its key only.
pub get-put :
    (k j : String) (v : Json) (m : Fields) → get k (put j v m) ≡ (if j == k then v else get k m)
get-put k j v end = refl
get-put k j v (field i w m) =
    ground (arith, eq_iff k j, eq_iff j k, eq_iff i k, eq_iff i j, get-put k j v m)

pub elements-items : (xs : List Json) → elements (items xs) ≡ xs
elements-items [] = refl
elements-items (x ∷ xs) = ap (◌∷◌ x) (elements-items xs)
