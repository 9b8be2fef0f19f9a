-- ===== src/K8sDynamic/JsonFields/Writes.antt =====
-- What is read after a write along a path of JSON values.
use jetstack_secure.Prelude.{
  String, ◌≡◌, ◌≢◌, refl, ap, true, Option, none, some, [], ◌∷◌, arith, eq_iff, eq_refl,
  Option-cases, inl, inr, ◌∙◌, sym,
}
use jetstack_secure.Prelude.Results.{ok, >>=-eq-ok, or_error, or_error_lem}
use jetstack_secure.K8sDynamic.Values.{
  Value, null, Fields, obj, FieldPath, lookup, insert, erase, apart, lookup-erase,
}
use jetstack_secure.K8sDynamic.JsonFields.{get_in, inner, inner_or_new, set_in, remove_in, write_in}
use jetstack_secure.K8sDynamic.JsonFields.Reads.{
  get_in-found, get_in-missing, get_in-insert_self, get_in-lookup, get_in-insert_apart,
  get_in-inner, get_in-inner_or_new,
}

-- What a successful write below the first level did.
pub set_in-inv :
    (o : Fields) (v : Value) (k j : String) (p : FieldPath) (o' : Fields)
    → set_in o v (k ∷ j ∷ p) ≡ ok o'
    → (n n' : Fields) × (inner_or_new (lookup k o) ≡ some n)
      × (set_in n v (j ∷ p) ≡ ok n')
      × (insert k (obj n') o ≡ o')
unfolding set_in
set_in-inv o v k j p o' h =
    let (n, found, rest) = >>=-eq-ok (or_error (inner_or_new (lookup k o)) "not a map") _ h in
    let (n', set, done) = >>=-eq-ok (set_in n v (j ∷ p)) _ rest in
    (n, n', or_error_lem (inner_or_new (lookup k o)) _ found, set, cc)

pub set_self :
    (o : Fields) (v : Value) (p : FieldPath) (o' : Fields)
    → set_in o v p ≡ ok o'
    → get_in (obj o') p ≡ ok (some v)
unfolding set_in
set_self o v [] o' h = cc
set_self o v (k ∷ []) o' h =
    let made : insert k v o ≡ o' = cc in
    rw (← made) (get_in-insert_self o k [] v ∙ unfold get_in in refl)
set_self o v (k ∷ j ∷ p) o' h =
    let (n, n', found, set, made) = set_in-inv o v k j p o' h in
    rw (← made) (get_in-insert_self o k (j ∷ p) (obj n') ∙ set_self n v (j ∷ p) n' set)

pub set_apart :
    (o : Fields) (v : Value) (p q : FieldPath) (o' : Fields)
    → apart p q ≡ true
    → set_in o v p ≡ ok o'
    → get_in (obj o') q ≡ get_in (obj o) q
unfolding set_in apart
set_apart o v [] q o' a h = cc
set_apart o v (k ∷ p) [] o' a h = cc
set_apart o v (k ∷ []) (i ∷ q) o' a h =
    let made : insert k v o ≡ o' = cc in
    rw (← made) (get_in-insert_apart o k i q v (λ e. ground arith))
set_apart o v (k ∷ j ∷ p) (i ∷ []) o' a h =
    let (n, n', found, set, made) = set_in-inv o v k j p o' h in
    rw (← made) (get_in-insert_apart o k i [] (obj n') (λ e. ground arith))
set_apart o v (k ∷ j ∷ p) (i ∷ l ∷ q) o' a h =
    let (n, n', found, set, made) = set_in-inv o v k j p o' h in
    rw (← made) (
      get_in-insert_apart o k i (l ∷ q) (obj n') (λ e.
        set_apart n v (j ∷ p) (l ∷ q) n' (ground arith) set
        ∙ get_in-inner_or_new o k l q n found
        ∙ ap (λ s. get_in (obj o) (s ∷ l ∷ q)) ((eq_iff k i).0 e)))

-- Below a level that is not a map nothing is found.
pub not_inner :
    (o : Option Value) (k : String) (p : FieldPath) (v : Value)
    → inner o ≡ none
    → elim o [ none ↦ ok none | some w ↦ get_in w (k ∷ p) ] ≢ ok (some v)
unfolding inner get_in
not_inner none k p v a h = cc
not_inner (some null) k p v a h = cc
not_inner (some (obj m)) k p v a h = cc
not_inner (some w) k p v a h = cc

pub get_in-not_inner :
    (m : Fields) (k j : String) (p : FieldPath) (v : Value)
    → inner (lookup k m) ≡ none
    → get_in (obj m) (k ∷ j ∷ p) ≢ ok (some v)
get_in-not_inner m k j p v a h = not_inner (lookup k m) j p v a (unfold get_in in h)

pub set_in-top :
    (o : Fields) (v : Value) (k : String) → (o' : Fields) × (set_in o v (k ∷ []) ≡ ok o')
unfolding set_in
set_in-top o v k = (insert k v o, refl)

pub remove_self :
    (o : Fields) (k : String) (p : FieldPath) (v : Value)
    → get_in (obj (remove_in o (k ∷ p))) (k ∷ p) ≢ ok (some v)
unfolding remove_in
remove_self o k [] v h =
    let gone = get_in-missing (erase k o) k [] (lookup-erase k k o ∙ rw eq_refl) in cc
remove_self o k (j ∷ p) v h = elim (Option-cases (inner (lookup k o))) [
  | inl a ↦ get_in-not_inner o k j p v a (rw (a, remove_in) at h)
  | inr (n, a) ↦
      let h' = rw (a, remove_in) at h in
      remove_self n j p v (sym (get_in-insert_self o k (j ∷ p) (obj (remove_in n (j ∷ p)))) ∙ h')
]

pub remove_apart :
    (o : Fields) (p q : FieldPath)
    → apart p q ≡ true
    → get_in (obj (remove_in o p)) q ≡ get_in (obj o) q
unfolding remove_in apart
remove_apart o [] q a = cc
remove_apart o (k ∷ p) [] a = cc
remove_apart o (k ∷ []) (i ∷ q) a =
    get_in-lookup (erase k o) o i q (lookup-erase k i o ∙ ground arith)
remove_apart o (k ∷ j ∷ p) (i ∷ q) a = elim (Option-cases (inner (lookup k o))) [
  | inl e ↦ rw (e, remove_in)
  | inr (n, e) ↦
      rw (e, remove_in)
        (get_in-insert_apart o k i q (obj (remove_in n (j ∷ p))) (λ s.
          remove_apart n (j ∷ p) q (ground arith)
          ∙ get_in-inner o k q n e
          ∙ ap (λ x. get_in (obj o) (x ∷ q)) ((eq_iff k i).0 s)))
]

pub inner-found :
    (o : Fields) (k : String) (p : FieldPath) (m : Fields)
    → get_in (obj o) (k ∷ p) ≡ ok (some (obj m))
    → inner (lookup k o) ≢ none
inner-found o k [] m h a = elim (Option-cases (lookup k o)) [
  | inl e ↦ let h' = get_in-missing o k [] e in cc
  | inr (w, e) ↦
      let same : w ≡ obj m = (let h' = get_in-found o k [] w e in unfold get_in in cc) in
      unfold inner in (let a' = rw (e, same) at a in cc)
]
inner-found o k (j ∷ p) m h a = get_in-not_inner o k j p (obj m) a h

pub write_self :
    (o : Fields) (p : FieldPath) (m new : Fields)
    → get_in (obj o) p ≡ ok (some (obj m))
    → get_in (obj (write_in o p new)) p ≡ ok (some (obj new))
unfolding write_in
write_self o [] m new h = unfold get_in in refl
write_self o (k ∷ p) m new h = elim (Option-cases (inner (lookup k o))) [
  | inl e ↦ absurd (inner-found o k p m h e)
  | inr (n, e) ↦
      rw (e, write_in)
        (get_in-insert_self o k p (obj (write_in n p new))
          ∙ write_self n p m new (get_in-inner o k p n e ∙ h))
]

pub write_apart :
    (o : Fields) (p q : FieldPath) (new : Fields)
    → apart p q ≡ true
    → get_in (obj (write_in o p new)) q ≡ get_in (obj o) q
unfolding write_in apart
write_apart o [] q new a = cc
write_apart o (k ∷ p) [] new a = cc
write_apart o (k ∷ p) (i ∷ q) new a = elim (Option-cases (inner (lookup k o))) [
  | inl e ↦ rw (e, write_in)
  | inr (n, e) ↦
      rw (e, write_in)
        (get_in-insert_apart o k i q (obj (write_in n p new)) (λ s.
          write_apart n p q new (ground arith)
          ∙ get_in-inner o k q n e
          ∙ ap (λ x. get_in (obj o) (x ∷ q)) ((eq_iff k i).0 s)))
]
