-- ===== src/CyberArk/Snapshot/Extracted.antt =====
-- What the extractor of a list of resources keeps.
use mathlib.Core.List.{Memᴰ}
use jetstack_secure.Prelude.{
  ℕ, ◌+◌, ◌≡◌, ◌↔◌, refl, sym, ap, ◌∙◌, true, false, List, [], ◌∷◌, Bool-cases, inl, inr, ◌⊎◌,
  true≢false,
}
use jetstack_secure.Prelude.Results.{ok, >>=-eq-ok}
use jetstack_secure.K8sDynamic.Resources.{Resource}
use jetstack_secure.K8sDynamic.Cache.{is_zero}
use jetstack_secure.CyberArk.Snapshot.{ReadItem, is_object, extract_resources}

-- A live item holds the resource.
abbrev Holds : List ReadItem → Resource → Type 0
Holds xs o = (x : ReadItem) × Memᴰ x xs × (is_zero x.deleted_at ≡ true) × (x.resource ≡ o)

-- How the loop treats its first item.
extract_resources-deleted :
    (i : ℕ) (x : ReadItem) (xs : List ReadItem)
    → is_zero x.deleted_at ≡ false
    → extract_resources i (x ∷ xs) ≡ extract_resources (i + 1) xs
unfolding extract_resources
extract_resources-deleted i x xs d = rw d

extract_resources-live :
    (i : ℕ) (x : ReadItem) (xs : List ReadItem) (objs : List Resource)
    → is_zero x.deleted_at ≡ true
    → extract_resources i (x ∷ xs) ≡ ok objs
    → (rest : List Resource) × (extract_resources (i + 1) xs ≡ ok rest) × (x.resource ∷ rest ≡ objs)
unfolding extract_resources
extract_resources-live i x xs objs d h = elim (Bool-cases (is_object x.resource)) [
  | inl t ↦
      let (rest, more, made) =
        >>=-eq-ok (extract_resources (i + 1) xs) (λ found. ok (x.resource ∷ found))
          (rw (d, t) at h) in
      (rest, more, cc)
  | inr f ↦ let h' = rw (d, f) at h in cc
]

Holds-later : (x : ReadItem) (xs : List ReadItem) (o : Resource) → Holds xs o → Holds (x ∷ xs) o
Holds-later x xs o (y, m, live, e) = (y, Memᴰ.tail m, live, e)

Holds-cons :
    (x : ReadItem) (xs : List ReadItem) (o : Resource)
    → Holds (x ∷ xs) o
    → ((is_zero x.deleted_at ≡ true) × (x.resource ≡ o)) ⊎ Holds xs o
Holds-cons x xs o (y, Memᴰ.head e, live, same) = inl (
  rw (← ap (λ (z : ReadItem). z.deleted_at) e) live,
  sym (ap (λ (z : ReadItem). z.resource) e) ∙ same,
)
Holds-cons x xs o (y, Memᴰ.tail m, live, same) = inr (y, m, live, same)

-- Where the extraction gives a list of resources, they are those of the items that are not deleted.
extract_resources_iff :
    (i : ℕ) (xs : List ReadItem) (objs : List Resource) (o : Resource)
    → extract_resources i xs ≡ ok objs
    → Memᴰ o objs ↔ Holds xs o
unfolding extract_resources
extract_resources_iff i [] objs o h =
    let none_left : objs ≡ [] = cc in
    (λ m. elim (rw none_left at m) [ ], λ (x, m, live, e). elim m [ ])
extract_resources_iff i (x ∷ xs) objs o h = elim (Bool-cases (is_zero x.deleted_at)) [
  | inl live ↦
      let (rest, more, made) = extract_resources-live i x xs objs live h in
      let (only, found) = extract_resources_iff (i + 1) xs rest o more in
      (
        λ m. elim (rw (← made) at m) [
          | Memᴰ.head e ↦ (x, Memᴰ.head refl, live, sym e)
          | Memᴰ.tail m' ↦ Holds-later x xs o (only m')
        ],
        λ held. rw (← made) (elim (Holds-cons x xs o held) [
          | inl (_, e) ↦ Memᴰ.head (sym e)
          | inr later ↦ Memᴰ.tail (found later)
        ]),
      )
  | inr dead ↦
      let (only, found) =
        extract_resources_iff (i + 1) xs objs o (sym (extract_resources-deleted i x xs dead) ∙ h) in
      (
        λ m. Holds-later x xs o (only m),
        λ held. elim (Holds-cons x xs o held) [
          | inl (live, _) ↦ absurd (true≢false (sym live ∙ dead))
          | inr later ↦ found later
        ],
      )
]
