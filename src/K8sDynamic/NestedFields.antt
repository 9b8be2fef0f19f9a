-- ===== src/K8sDynamic/NestedFields.antt =====
-- The helpers of k8s.io/apimachinery's package `unstructured` that the gatherer calls, as an
-- interface with their documented behaviour. `write_through` is a write to the map that
-- `NestedFieldNoCopy` returned a reference to. `Model` implements the interface.

use jetstack_secure.Prelude.{String, ◌≡◌, ◌≢◌, true, Option, none, some, [], ◌∷◌, ◌++◌}
use jetstack_secure.Prelude.Results.{Result, ok}
use jetstack_secure.K8sDynamic.Values.{Value, Fields, end, obj, FieldPath, lookup, apart}

pub record NestedFields : Type 0 where
  -- `NestedFieldNoCopy`: the value, or not found, or an error where a level is not a map.
  pub nested_field : Fields → FieldPath → Result String (Option Value)
  -- `SetNestedField`, which stores a deep copy and makes the levels that are missing.
  pub set_nested_field : Fields → Value → FieldPath → Result String Fields
  -- `RemoveNestedField`.
  pub remove_nested_field : Fields → FieldPath → Fields
  pub write_through : Fields → FieldPath → Fields → Fields
  pub nested_field-end : (k : String) (p : FieldPath) → nested_field end (k ∷ p) ≡ ok none
  pub nested_field-append :
      (o : Fields) (p : FieldPath) (m : Fields) (k : String)
      → nested_field o p ≡ ok (some (obj m))
      → nested_field o (p ++ k ∷ []) ≡ ok (lookup k m)
  pub nested_field-below :
      (o : Fields) (p : FieldPath) (k : String) (v : Value)
      → nested_field o (p ++ k ∷ []) ≡ ok (some v)
      → (m : Fields) × (nested_field o p ≡ ok (some (obj m))) × (lookup k m ≡ some v)
  -- An error needs a level that is not a map, and here there is no level.
  pub set_nested_field-top :
      (o : Fields) (v : Value) (k : String)
      → (o' : Fields) × (set_nested_field o v (k ∷ []) ≡ ok o')
  pub nested_field-set_self :
      (o : Fields) (v : Value) (p : FieldPath) (o' : Fields)
      → set_nested_field o v p ≡ ok o'
      → nested_field o' p ≡ ok (some v)
  pub nested_field-set_apart :
      (o : Fields) (v : Value) (p q : FieldPath) (o' : Fields)
      → apart p q ≡ true
      → set_nested_field o v p ≡ ok o'
      → nested_field o' q ≡ nested_field o q
  pub nested_field-remove_self :
      (o : Fields) (k : String) (p : FieldPath) (v : Value)
      → nested_field (remove_nested_field o (k ∷ p)) (k ∷ p) ≢ ok (some v)
  pub nested_field-remove_apart :
      (o : Fields) (p q : FieldPath)
      → apart p q ≡ true
      → nested_field (remove_nested_field o p) q ≡ nested_field o q
  pub nested_field-write_self :
      (o : Fields) (p : FieldPath) (m new : Fields)
      → nested_field o p ≡ ok (some (obj m))
      → nested_field (write_through o p new) p ≡ ok (some (obj new))
  pub nested_field-write_apart :
      (o : Fields) (p q : FieldPath) (new : Fields)
      → apart p q ≡ true
      → nested_field (write_through o p new) q ≡ nested_field o q
