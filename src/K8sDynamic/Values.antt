-- ===== src/K8sDynamic/Values.antt =====
-- The values that an unstructured Kubernetes object is made of: Go's `any` after JSON decoding,
-- with `map[string]any` as a list of entries. Numbers are never inspected and keep their text.
-- Paths of field names are `FieldPath` of pkg/datagatherer/k8sdynamic/fieldfilter.go.
use jetstack_secure.Prelude.{
  String, Bool, false, not, ◌||◌, Option, none, some, List, [], ◌∷◌, ◌≡◌, refl, arith, ◌==◌, eq_iff,
  if◌then◌else◌,
}

mutual
  pub data Value : Type 0 where
    null : Value
    bool : Bool → Value
    number : String → Value
    text : String → Value
    arr : Items → Value
    obj : Fields → Value

  pub data Items : Type 0 where
    nil : Items
    item : Value → Items → Items

  pub data Fields : Type 0 where
    end : Fields
    field : String → Value → Fields → Fields

abbrev pub FieldPath : Type 0
FieldPath = List String

-- `m[k]`.
unfoldable pub lookup : String → Fields → Option Value
lookup k end = none
lookup k (field j v m) = if j == k then some v else lookup k m

-- `m[k] = v`.
unfoldable pub insert : String → Value → Fields → Fields
insert k v end = field k v end
insert k v (field j w m) = if j == k then field k v m else field j w (insert k v m)

-- `delete(m, k)`.
unfoldable pub erase : String → Fields → Fields
erase k end = end
erase k (field j w m) = let rest = erase k m in if j == k then rest else field j w rest

-- `for key := range m { if test(key) { delete(m, key) } }`.
unfoldable pub without_keys : (String → Bool) → Fields → Fields
without_keys test end = end
without_keys test (field j w m) =
    let rest = without_keys test m in if test j then rest else field j w rest

pub lookup-end : (k : String) → lookup k end ≡ none
unfolding lookup
lookup-end k = refl

pub lookup-insert :
    (k j : String) (v : Value) (m : Fields)
    → lookup j (insert k v m) ≡ (if k == j then some v else lookup j m)
unfolding lookup insert
lookup-insert k j v end = refl
lookup-insert k j v (field i w m) =
    ground (arith, eq_iff k j, eq_iff i k, eq_iff i j, lookup-insert k j v m)

pub lookup-erase :
    (k j : String) (m : Fields) → lookup j (erase k m) ≡ (if k == j then none else lookup j m)
unfolding lookup erase
lookup-erase k j end = ground arith
lookup-erase k j (field i w m) =
    ground (arith, eq_iff k j, eq_iff i k, eq_iff i j, lookup-erase k j m)

pub lookup-without_keys :
    (test : String → Bool) (j : String) (m : Fields)
    → lookup j (without_keys test m) ≡ (if test j then none else lookup j m)
unfolding lookup without_keys
lookup-without_keys test j end = ground arith
lookup-without_keys test j (field i w m) = ground (arith, eq_iff i j, lookup-without_keys test j m)

-- Two paths part ways before either ends: neither is a prefix of the other.
unfoldable pub apart : FieldPath → FieldPath → Bool
apart [] q = false
apart (k ∷ p) [] = false
apart (k ∷ p) (j ∷ q) = not (k == j) || apart p q

pub apart_sym : (p q : FieldPath) → apart p q ≡ apart q p
unfolding apart
apart_sym [] [] = refl
apart_sym [] (j ∷ q) = refl
apart_sym (k ∷ p) [] = refl
apart_sym (k ∷ p) (j ∷ q) = ground (arith, eq_iff k j, eq_iff j k, apart_sym p q)
