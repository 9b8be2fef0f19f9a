-- ===== src/K8sDynamic/FieldFilter/Selecting.antt =====
-- What `Select` and `Redact` leave of an object, for any lists of fields.
use mathlib.Core.List.{Memᴰ}
use jetstack_secure.Prelude.{
  String, ◌≡◌, ◌≢◌, refl, sym, ◌∙◌, Bool, true, ◌&&◌, Option, none, some, List, [], ◌∷◌, arith,
}
use jetstack_secure.Prelude.Results.{ok, >>=-eq-ok}
use jetstack_secure.Prelude.Lists.{all}
use jetstack_secure.K8sDynamic.Values.{Value, Fields, end, FieldPath, apart, apart_sym}
use jetstack_secure.K8sDynamic.NestedFields.{NestedFields}
use jetstack_secure.K8sDynamic.FieldFilter.{put_found, copy_field, copy_fields, select, redact}

-- No field of the list is a prefix of the path, nor the path of it.
abbrev pub all_apart : List FieldPath → FieldPath → Bool
all_apart paths q = all (λ p. apart p q) paths

-- No field of the list is a prefix of another.
abbrev pub pairwise_apart : List FieldPath → Bool
pairwise_apart [] = true
pairwise_apart (p ∷ paths) = all_apart paths p && pairwise_apart paths

all_apart-mem :
    (paths : List FieldPath) (p q : FieldPath)
    → all_apart paths q ≡ true
    → Memᴰ p paths
    → apart p q ≡ true
all_apart-mem [] p q h m = elim m [ ]
all_apart-mem (x ∷ paths) p q h (Memᴰ.head e) = rw e (ground arith)
all_apart-mem (x ∷ paths) p q h (Memᴰ.tail m) = all_apart-mem paths p q (ground arith) m

module _ (n : NestedFields) where
  open n use {
    nested_field, remove_nested_field, nested_field-end, nested_field-set_self,
    nested_field-set_apart, nested_field-remove_self, nested_field-remove_apart,
  }

  put_found-apart :
      (new : Fields) (p q : FieldPath) (found : Option Value) (new' : Fields)
      → apart p q ≡ true
      → put_found n new p found ≡ ok new'
      → nested_field new' q ≡ nested_field new q
  unfolding put_found
  put_found-apart new p q none new' a h = let same : new ≡ new' = cc in rw same
  put_found-apart new p q (some v) new' a h = nested_field-set_apart new v p q new' a h

  put_found_self :
      (new : Fields) (p : FieldPath) (found : Option Value) (new' : Fields)
      → nested_field new p ≡ ok none
      → put_found n new p found ≡ ok new'
      → nested_field new' p ≡ ok found
  unfolding put_found
  put_found_self new p none new' fresh h = let same : new ≡ new' = cc in rw (← same) fresh
  put_found_self new p (some v) new' fresh h = nested_field-set_self new v p new' h

  copy_field-apart :
      (o new : Fields) (p q : FieldPath) (new' : Fields)
      → apart p q ≡ true
      → copy_field n o new p ≡ ok new'
      → nested_field new' q ≡ nested_field new q
  unfolding copy_field
  copy_field-apart o new p q new' a h =
      let (found, read, set) = >>=-eq-ok (nested_field o p) (put_found n new p) h in
      put_found-apart new p q found new' a set

  copy_fields-apart :
      (o new : Fields) (paths : List FieldPath) (q : FieldPath) (new' : Fields)
      → all_apart paths q ≡ true
      → copy_fields n o new paths ≡ ok new'
      → nested_field new' q ≡ nested_field new q
  unfolding copy_fields
  copy_fields-apart o new [] q new' a h = let same : new ≡ new' = cc in rw same
  copy_fields-apart o new (p ∷ paths) q new' a h =
      let (mid, first, rest) = >>=-eq-ok (copy_field n o new p) _ h in
      copy_fields-apart o mid paths q new' (ground arith) rest
      ∙ copy_field-apart o new p q mid (ground arith) first

  -- Nothing is left at a path that parts from every selected field.
  pub nested_field-select_apart :
      (paths : List FieldPath) (o : Fields) (k : String) (q : FieldPath) (o' : Fields)
      → all_apart paths (k ∷ q) ≡ true
      → select n paths o ≡ ok o'
      → nested_field o' (k ∷ q) ≡ ok none
  unfolding select
  nested_field-select_apart paths o k q o' a h =
      copy_fields-apart o end paths (k ∷ q) o' a h ∙ nested_field-end k q

  copy_fields-mem :
      (o new : Fields) (paths : List FieldPath) (p : FieldPath) (new' : Fields)
      → pairwise_apart paths ≡ true
      → Memᴰ p paths
      → nested_field new p ≡ ok none
      → copy_fields n o new paths ≡ ok new'
      → nested_field new' p ≡ nested_field o p
  unfolding copy_fields copy_field
  copy_fields-mem o new [] p new' d m fresh h = elim m [ ]
  copy_fields-mem o new (x ∷ paths) p new' d (Memᴰ.head e) fresh h =
      let (mid, first, rest) = >>=-eq-ok (copy_field n o new x) _ h in
      let (found, read, set) = >>=-eq-ok (nested_field o x) (put_found n new x) first in
      rw e (
        copy_fields-apart o mid paths x new' (ground arith) rest
        ∙ put_found_self new x found mid (rw e at fresh) set
        ∙ sym read)
  copy_fields-mem o new (x ∷ paths) p new' d (Memᴰ.tail m) fresh h =
      let (mid, first, rest) = >>=-eq-ok (copy_field n o new x) _ h in
      let parts : apart x p ≡ true = apart_sym x p ∙ all_apart-mem paths p x (ground arith) m in
      copy_fields-mem o mid paths p new' (ground arith) m
        (copy_field-apart o new x p mid parts first ∙ fresh) rest

  -- A selected field keeps its value, where no selected field is a prefix of another.
  pub nested_field-select_mem :
      (paths : List FieldPath) (o : Fields) (k : String) (p : FieldPath) (o' : Fields)
      → pairwise_apart paths ≡ true
      → Memᴰ (k ∷ p) paths
      → select n paths o ≡ ok o'
      → nested_field o' (k ∷ p) ≡ nested_field o (k ∷ p)
  unfolding select
  nested_field-select_mem paths o k p o' d m h =
      copy_fields-mem o end paths (k ∷ p) o' d m (nested_field-end k p) h

  -- `Redact` leaves a path alone that parts from every redacted field.
  pub nested_field-redact_apart :
      (paths : List FieldPath) (o : Fields) (q : FieldPath)
      → all_apart paths q ≡ true
      → nested_field (redact n paths o) q ≡ nested_field o q
  unfolding redact
  nested_field-redact_apart [] o q a = refl
  nested_field-redact_apart (p ∷ paths) o q a =
      nested_field-redact_apart paths (remove_nested_field o p) q (ground arith)
      ∙ nested_field-remove_apart o p q (ground arith)

  -- `Redact` leaves no value at a redacted field.
  pub nested_field-redact_mem :
      (paths : List FieldPath) (o : Fields) (k : String) (p : FieldPath) (v : Value)
      → pairwise_apart paths ≡ true
      → Memᴰ (k ∷ p) paths
      → nested_field (redact n paths o) (k ∷ p) ≢ ok (some v)
  unfolding redact
  nested_field-redact_mem [] o k p v d m = elim m [ ]
  nested_field-redact_mem (x ∷ paths) o k p v d (Memᴰ.head e) =
      rw (nested_field-redact_apart paths (remove_nested_field o x) (k ∷ p) (rw e (ground arith)))
        (rw (← e) (nested_field-remove_self o k p v))
  nested_field-redact_mem (x ∷ paths) o k p v d (Memᴰ.tail m) =
      nested_field-redact_mem paths (remove_nested_field o x) k p v (ground arith) m
