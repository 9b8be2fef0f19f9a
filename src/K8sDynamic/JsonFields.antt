-- ===== src/K8sDynamic/JsonFields.antt =====
-- An implementation of the interface `NestedFields` over JSON values: it shows that the interface
-- can be met, and the tests and witnesses run on it.
pub mod Reads
pub mod Writes
pub mod Model
use jetstack_secure.Prelude.{
  String, ◌≡◌, ◌≢◌, refl, ap, true, Option, none, some, [], ◌∷◌, ◌++◌, arith, ◌==◌, eq_iff, eq_refl,
  Option-cases, inl, inr, ◌∙◌, sym, Bool-cases,
}
use jetstack_secure.Prelude.Results.{Result, ok, err, ◌>>=◌, >>=-eq-ok, or_error, or_error_lem}
use jetstack_secure.K8sDynamic.Values.{
  Value, null, Fields, end, obj, FieldPath, lookup, insert, erase, apart, lookup-end, lookup-insert,
  lookup-erase,
}
use jetstack_secure.K8sDynamic.NestedFields.{NestedFields}

unfoldable pub get_in : Value → FieldPath → Result String (Option Value)
unfolding lookup
get_in v [] = ok (some v)
get_in null (k ∷ p) = ok none
get_in (obj m) (k ∷ p) = elim (lookup k m) [ none ↦ ok none | some v ↦ get_in v p ]
get_in v (k ∷ p) = err "not a map"

-- The map one level down; a missing level is a new map where one is to be made.
unfoldable pub inner : Option Value → Option Fields
inner (some (obj n)) = some n
inner _ = none

unfoldable pub inner_or_new : Option Value → Option Fields
unfolding inner
inner_or_new none = some end
inner_or_new (some v) = inner (some v)

unfoldable pub set_in : Fields → Value → FieldPath → Result String Fields
unfolding inner_or_new lookup insert
set_in m v [] = err "no field"
set_in m v (k ∷ []) = ok (insert k v m)
set_in m v (k ∷ j ∷ p) = do
  n ← or_error (inner_or_new (lookup k m)) "not a map"
  n' ← set_in n v (j ∷ p)
  ok (insert k (obj n') m)

unfoldable pub remove_in : Fields → FieldPath → Fields
unfolding inner lookup insert erase
remove_in m [] = m
remove_in m (k ∷ []) = erase k m
remove_in m (k ∷ j ∷ p) = elim (inner (lookup k m)) [
  | some n ↦ insert k (obj (remove_in n (j ∷ p))) m
  | none ↦ m
]

unfoldable pub write_in : Fields → FieldPath → Fields → Fields
unfolding inner lookup insert
write_in m [] new = new
write_in m (k ∷ p) new = elim (inner (lookup k m)) [
  | some n ↦ insert k (obj (write_in n p new)) m
  | none ↦ m
]
