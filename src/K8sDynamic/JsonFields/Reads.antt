-- ===== src/K8sDynamic/JsonFields/Reads.antt =====
-- Reading along a path of JSON values.
use jetstack_secure.Prelude.{
  String, ◌≡◌, refl, true, Option, none, some, [], ◌∷◌, ◌++◌, ◌==◌, eq_refl, Option-cases, inl, inr,
  ◌∙◌, sym, Bool-cases,
}
use jetstack_secure.Prelude.Results.{ok}
use jetstack_secure.K8sDynamic.Values.{
  Value, null, Fields, end, obj, FieldPath, lookup, insert, lookup-end, lookup-insert,
}
use jetstack_secure.K8sDynamic.JsonFields.{get_in, inner, inner_or_new}

-- One level down.
pub get_in-found :
    (m : Fields) (k : String) (p : FieldPath) (v : Value)
    → lookup k m ≡ some v
    → get_in (obj m) (k ∷ p) ≡ get_in v p
unfolding get_in
get_in-found m k p v e = rw (e, get_in)

pub get_in-missing :
    (m : Fields) (k : String) (p : FieldPath) → lookup k m ≡ none → get_in (obj m) (k ∷ p) ≡ ok none
unfolding get_in
get_in-missing m k p e = rw (e, get_in)

pub get_in-end : (k : String) (p : FieldPath) → get_in (obj end) (k ∷ p) ≡ ok none
get_in-end k p = get_in-missing end k p (lookup-end k)

pub get_in-insert_self :
    (m : Fields) (k : String) (p : FieldPath) (v : Value)
    → get_in (obj (insert k v m)) (k ∷ p) ≡ get_in v p
get_in-insert_self m k p v = get_in-found (insert k v m) k p v (lookup-insert k k v m ∙ rw eq_refl)

pub get_in-lookup :
    (m n : Fields) (k : String) (p : FieldPath)
    → lookup k m ≡ lookup k n
    → get_in (obj m) (k ∷ p) ≡ get_in (obj n) (k ∷ p)
unfolding get_in
get_in-lookup m n k p e = rw (e, get_in)

pub get_in-insert_apart :
    (m : Fields) (k i : String) (q : FieldPath) (v : Value)
    → (k == i ≡ true → get_in v q ≡ get_in (obj m) (i ∷ q))
    → get_in (obj (insert k v m)) (i ∷ q) ≡ get_in (obj m) (i ∷ q)
get_in-insert_apart m k i q v same = elim (Bool-cases (k == i)) [
  | inl e ↦ get_in-found (insert k v m) i q v (lookup-insert k i v m ∙ rw e) ∙ same e
  | inr e ↦ get_in-lookup (insert k v m) m i q (lookup-insert k i v m ∙ rw e)
]

pub get_in-append :
    (v : Value) (p : FieldPath) (m : Fields) (k : String)
    → get_in v p ≡ ok (some (obj m))
    → get_in v (p ++ k ∷ []) ≡ ok (lookup k m)
unfolding get_in
get_in-append v [] m k h =
    let same : v ≡ obj m = cc in
    rw same
      (elim (Option-cases (lookup k m)) [ inl e ↦ rw (e, get_in) | inr (w, e) ↦ rw (e, get_in) ])
get_in-append null (j ∷ p) m k h = cc
get_in-append (obj n) (j ∷ p) m k h = elim (Option-cases (lookup j n)) [
  | inl e ↦ let h' = rw (e, get_in) at h in cc
  | inr (w, e) ↦ rw (e, get_in) (get_in-append w p m k (rw (e, get_in) at h))
]
get_in-append v (j ∷ p) m k h = cc

pub get_in-below :
    (w : Value) (p : FieldPath) (k : String) (v : Value)
    → get_in w (p ++ k ∷ []) ≡ ok (some v)
    → (m : Fields) × (get_in w p ≡ ok (some (obj m))) × (lookup k m ≡ some v)
unfolding get_in
get_in-below null [] k v h = cc
get_in-below (obj m) [] k v h = elim (Option-cases (lookup k m)) [
  | inl e ↦ let h' = rw (e, get_in) at h in cc
  | inr (w, e) ↦ let h' = rw (e, get_in) at h in (m, refl, cc)
]
get_in-below w [] k v h = cc
get_in-below null (j ∷ p) k v h = cc
get_in-below (obj n) (j ∷ p) k v h = elim (Option-cases (lookup j n)) [
  | inl e ↦ let h' = rw (e, get_in) at h in cc
  | inr (w, e) ↦ rw (e, get_in) (get_in-below w p k v (rw (e, get_in) at h))
]
get_in-below w (j ∷ p) k v h = cc

pub inner_lem : (o : Option Value) (n : Fields) → inner o ≡ some n → o ≡ some (obj n)
unfolding inner
inner_lem none n h = cc
inner_lem (some (obj m)) n h = cc
inner_lem (some v) n h = cc

pub get_in-inner :
    (m : Fields) (k : String) (q : FieldPath) (n : Fields)
    → inner (lookup k m) ≡ some n
    → get_in (obj n) q ≡ get_in (obj m) (k ∷ q)
get_in-inner m k q n e = sym (get_in-found m k q (obj n) (inner_lem (lookup k m) n e))

pub get_in-inner_or_new :
    (m : Fields) (k i : String) (q : FieldPath) (n : Fields)
    → inner_or_new (lookup k m) ≡ some n
    → get_in (obj n) (i ∷ q) ≡ get_in (obj m) (k ∷ i ∷ q)
unfolding inner_or_new
get_in-inner_or_new m k i q n e = elim (Option-cases (lookup k m)) [
  | inl a ↦
      let made : end ≡ n = (let e' = rw (a, inner_or_new) at e in cc) in
      rw (← made) (get_in-end i q ∙ sym (get_in-missing m k (i ∷ q) a))
  | inr (w, a) ↦ get_in-inner m k (i ∷ q) n (rw a (rw (a, inner_or_new) at e))
]
