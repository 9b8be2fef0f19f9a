-- ===== src/Prelude/Lists.antt =====
-- Lists: lengths over the native numbers, Boolean searches, predicates by recursion.
use Prim.Native.Nat.{ℕ, zero, suc, ◌+◌}
use Prim.Native.String.{String}
use mathlib.Core.Path.{◌≡◌, refl, ap, sym, ◌∙◌, subst}
use mathlib.Core.Logic.{◌⊎◌, inl, inr}
use mathlib.Core.Bool.{Bool, true, false, ◌&&◌, ◌||◌}
use mathlib.Core.List.{List, [], ◌∷◌, ◌++◌, Memᴰ}
use native.Mathlib.Omega.{arith}
use text.Mathlib.Text.{◌==◌}
use jetstack_secure.Prelude.Base.{if◌then◌else◌}

module _ {ℓ} {A : Type ℓ} where
  abbrev pub length : List A → ℕ
  length [] = 0
  length (x ∷ xs) = suc (length xs)

  abbrev pub take : ℕ → List A → List A
  take zero xs = []
  take (suc n) [] = []
  take (suc n) (x ∷ xs) = x ∷ take n xs

  abbrev pub is_empty : List A → Bool
  is_empty [] = true
  is_empty (x ∷ xs) = false

  abbrev pub all : (A → Bool) → List A → Bool
  all p [] = true
  all p (x ∷ xs) = p x && all p xs

  abbrev pub any : (A → Bool) → List A → Bool
  any p [] = false
  any p (x ∷ xs) = p x || any p xs

  abbrev pub filter : (A → Bool) → List A → List A
  filter p [] = []
  filter p (x ∷ xs) = let rest = filter p xs in if p x then x ∷ rest else rest

  -- A list with one more element under a test.
  pub mem-cons_if :
      (b : Bool) (y : A) (ys : List A) (x : A)
      → Memᴰ x (if b then y ∷ ys else ys)
      → ((x ≡ y) × (b ≡ true)) ⊎ Memᴰ x ys
  mem-cons_if true y ys x (Memᴰ.head e) = inl (e, refl)
  mem-cons_if true y ys x (Memᴰ.tail m) = inr m
  mem-cons_if false y ys x m = inr m

  pub cons_if_here :
      (b : Bool) (y : A) (ys : List A) (x : A)
      → x ≡ y
      → b ≡ true
      → Memᴰ x (if b then y ∷ ys else ys)
  cons_if_here true y ys x e t = Memᴰ.head e
  cons_if_here false y ys x e t = cc

  pub cons_if_there :
      (b : Bool) (y : A) (ys : List A) (x : A) → Memᴰ x ys → Memᴰ x (if b then y ∷ ys else ys)
  cons_if_there true y ys x m = Memᴰ.tail m
  cons_if_there false y ys x m = m

  pub filter-mem :
      (p : A → Bool) (xs : List A) (x : A) → Memᴰ x (filter p xs) → Memᴰ x xs × (p x ≡ true)
  filter-mem p [] x m = elim m [ ]
  filter-mem p (y ∷ xs) x m = elim (mem-cons_if (p y) y (filter p xs) x m) [
    | inl (e, t) ↦ (Memᴰ.head e, ap p e ∙ t)
    | inr later ↦ let (m', t) = filter-mem p xs x later in (Memᴰ.tail m', t)
  ]

  pub mem-filter :
      (p : A → Bool) (xs : List A) (x : A) → Memᴰ x xs → p x ≡ true → Memᴰ x (filter p xs)
  mem-filter p [] x m t = elim m [ ]
  mem-filter p (y ∷ xs) x (Memᴰ.head e) t =
      cons_if_here (p y) y (filter p xs) x e (sym (ap p e) ∙ t)
  mem-filter p (y ∷ xs) x (Memᴰ.tail m) t =
      cons_if_there (p y) y (filter p xs) x (mem-filter p xs x m t)

  pub filter-all : (p : A → Bool) (xs : List A) → ((x : A) → p x ≡ true) → filter p xs ≡ xs
  filter-all p [] h = refl
  filter-all p (x ∷ xs) h = rw (h x) (ap (λ (ys : List A). x ∷ ys) (filter-all p xs h))

  pub is_empty-nil : (xs : List A) → is_empty xs ≡ true → xs ≡ []
  is_empty-nil [] h = refl
  is_empty-nil (x ∷ xs) h = cc

  pub length-append : (xs ys : List A) → length (xs ++ ys) ≡ length xs + length ys
  length-append [] ys = omega arith
  length-append (x ∷ xs) ys = omega (arith, length-append xs ys)

-- Go's `slices.Contains`, on strings.
abbrev pub contains : List String → String → Bool
contains [] k = false
contains (x ∷ xs) k = x == k || contains xs k

module _ {ℓ κ} {A : Type ℓ} (P : A → Type κ) where
  abbrev pub All : List A → Type κ
  All [] = Unit
  All (x ∷ xs) = P x × All xs

  pub All-append : (xs ys : List A) → All xs → All ys → All (xs ++ ys)
  All-append [] ys _ k = k
  All-append (x ∷ xs) ys (p, h) k = (p, All-append xs ys h k)

  pub All-mem : (xs : List A) (x : A) → All xs → Memᴰ x xs → P x
  All-mem [] x h m = elim m [ ]
  All-mem (y ∷ xs) x (p, h) (Memᴰ.head e) = subst P (sym e) p
  All-mem (y ∷ xs) x (p, h) (Memᴰ.tail m) = All-mem xs x h m
