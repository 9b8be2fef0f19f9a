-- ===== src/Permissions/Granted.antt =====
-- Which roles and bindings the manifests hold.
use mathlib.Core.List.{Memᴰ}
use jetstack_secure.Prelude.{
  String, ◌≡◌, ◌↔◌, ◌⊎◌, inl, inr, refl, ap, sym, ◌∙◌, subst, true, List, [], ◌∷◌, ◌++◌, map, ◌==◌,
  eq_iff, Bool-cases,
}
use jetstack_secure.K8sDynamic.Validation.{ConfigDynamic}
use jetstack_secure.Agent.Config.{DataGatherer}
use jetstack_secure.Permissions.{
  ClusterRole, ClusterRoleBinding, RoleBinding, AgentRbacManifests, cluster_role_of,
  role_binding_of, cluster_role_binding_of, bind_namespaces, add_gatherer, manifests_loop,
  generate_agent_rbac_manifests,
}

-- The members of two lists, one after the other.
module _ {ℓ} {A : Type ℓ} where
  append-mem : (xs ys : List A) (x : A) → Memᴰ x (xs ++ ys) → Memᴰ x xs ⊎ Memᴰ x ys
  append-mem [] ys x m = inr m
  append-mem (y ∷ xs) ys x (Memᴰ.head e) = inl (Memᴰ.head e)
  append-mem (y ∷ xs) ys x (Memᴰ.tail m) = elim (append-mem xs ys x m) [
    | inl l ↦ inl (Memᴰ.tail l)
    | inr r ↦ inr r
  ]

  mem-append_left : (xs ys : List A) (x : A) → Memᴰ x xs → Memᴰ x (xs ++ ys)
  mem-append_left [] ys x m = elim m [ ]
  mem-append_left (y ∷ xs) ys x (Memᴰ.head e) = Memᴰ.head e
  mem-append_left (y ∷ xs) ys x (Memᴰ.tail m) = Memᴰ.tail (mem-append_left xs ys x m)

  mem-append_right : (xs ys : List A) (x : A) → Memᴰ x ys → Memᴰ x (xs ++ ys)
  mem-append_right [] ys x m = m
  mem-append_right (y ∷ xs) ys x m = Memᴰ.tail (mem-append_right xs ys x m)

-- A gatherer of the configuration that reads resources.
pub record IsDynamic (config_of : DataGatherer → ConfigDynamic) (dgs : List DataGatherer)
    (config : ConfigDynamic) : Type 0 where
  pub section : DataGatherer
  pub is_section : Memᴰ section dgs
  pub is_dynamic : section.kind ≡ "k8s-dynamic"
  pub is_config : config ≡ config_of section

IsDynamic-there :
    {config_of : DataGatherer → ConfigDynamic} (dg : DataGatherer) (dgs : List DataGatherer)
    {config : ConfigDynamic}
    → IsDynamic config_of dgs config
    → IsDynamic config_of (dg ∷ dgs) config
IsDynamic-there dg dgs d = record {
  section = d.section;
  is_section = Memᴰ.tail d.is_section;
  is_dynamic = d.is_dynamic;
  is_config = d.is_config;
}

-- One of the lists of the manifests, which each gatherer extends by its items.
module _ (config_of : DataGatherer → ConfigDynamic) {B : Type 0}
    (select : AgentRbacManifests → List B) (items : ConfigDynamic → List B)
    (extends : (c : ConfigDynamic) (m : AgentRbacManifests) (b : B)
      → Memᴰ b (select (add_gatherer c m)) ↔ (Memᴰ b (select m) ⊎ Memᴰ b (items c))) where
  abbrev IsItem : List DataGatherer → B → Type 0
  IsItem dgs b = (config : ConfigDynamic) × IsDynamic config_of dgs config × Memᴰ b (items config)

  IsItem-there :
      (dg : DataGatherer) (dgs : List DataGatherer) (b : B) → IsItem dgs b → IsItem (dg ∷ dgs) b
  IsItem-there dg dgs b (config, d, m) = (config, IsDynamic-there dg dgs d, m)

  mem-manifests_loop :
      (dgs : List DataGatherer) (m : AgentRbacManifests) (b : B)
      → Memᴰ b (select m)
      → Memᴰ b (select (manifests_loop config_of dgs m))
  unfolding manifests_loop
  mem-manifests_loop [] m b h = h
  mem-manifests_loop (dg ∷ dgs) m b h = elim (Bool-cases (dg.kind == "k8s-dynamic")) [
    | inl dynamic ↦ rw dynamic (
        mem-manifests_loop dgs (add_gatherer (config_of dg) m) b
          ((extends (config_of dg) m b).1 (inl h)))
    | inr static ↦ rw static (mem-manifests_loop dgs m b h)
  ]

  manifests_loop-mem :
      (dgs : List DataGatherer) (m : AgentRbacManifests) (b : B)
      → Memᴰ b (select (manifests_loop config_of dgs m))
      → Memᴰ b (select m) ⊎ IsItem dgs b
  unfolding manifests_loop
  manifests_loop-mem [] m b h = inl h
  manifests_loop-mem (dg ∷ dgs) m b h = elim (Bool-cases (dg.kind == "k8s-dynamic")) [
    | inr static ↦ elim (manifests_loop-mem dgs m b (rw static at h)) [
      | inl before ↦ inl before
      | inr item ↦ inr (IsItem-there dg dgs b item)
    ]
    | inl dynamic ↦
        elim (manifests_loop-mem dgs (add_gatherer (config_of dg) m) b (rw dynamic at h)) [
          | inr item ↦ inr (IsItem-there dg dgs b item)
          | inl added ↦ elim ((extends (config_of dg) m b).0 added) [
            | inl before ↦ inl before
            | inr own ↦ inr (
              config_of dg,
              record {
                section = dg;
                is_section = Memᴰ.head refl;
                is_dynamic = (eq_iff dg.kind "k8s-dynamic").0 dynamic;
                is_config = refl;
              },
              own,
            )
          ]
        ]
  ]

  item-manifests_loop :
      (dgs : List DataGatherer) (m : AgentRbacManifests) (b : B) (dg : DataGatherer)
      → Memᴰ dg dgs
      → dg.kind ≡ "k8s-dynamic"
      → Memᴰ b (items (config_of dg))
      → Memᴰ b (select (manifests_loop config_of dgs m))
  unfolding manifests_loop
  item-manifests_loop [] m b dg here kind own = elim here [ ]
  item-manifests_loop (first ∷ dgs) m b dg (Memᴰ.head e) kind own =
      let dynamic : first.kind == "k8s-dynamic" ≡ true =
        (eq_iff first.kind "k8s-dynamic").1 (ap (λ (d : DataGatherer). d.kind) (sym e) ∙ kind) in
      let own' : Memᴰ b (items (config_of first)) =
        subst (λ (d : DataGatherer). Memᴰ b (items (config_of d))) e own in
      rw dynamic (
        mem-manifests_loop dgs (add_gatherer (config_of first) m) b
          ((extends (config_of first) m b).1 (inr own')))
  item-manifests_loop (first ∷ dgs) m b dg (Memᴰ.tail later) kind own =
      item-manifests_loop dgs _ b dg later kind own

  -- The list has the items of the dynamic gatherers, and those that were there before.
  manifests_loop-mem_iff :
      (dgs : List DataGatherer) (m : AgentRbacManifests) (b : B)
      → Memᴰ b (select (manifests_loop config_of dgs m)) ↔ (Memᴰ b (select m) ⊎ IsItem dgs b)
  manifests_loop-mem_iff dgs m b = (
    manifests_loop-mem dgs m b,
    (λ h. elim h [
      | inl before ↦ mem-manifests_loop dgs m b before
      | inr (config, d, own) ↦
          item-manifests_loop dgs m b d.section d.is_section d.is_dynamic
            (subst (λ (c : ConfigDynamic). Memᴰ b (items c)) d.is_config own)
    ]),
  )

-- The items of the three lists.
abbrev roles_of : ConfigDynamic → List ClusterRole
roles_of c = cluster_role_of c ∷ []

cluster_bindings_in : ConfigDynamic → List String → List ClusterRoleBinding
cluster_bindings_in c [] = cluster_role_binding_of c ∷ []
cluster_bindings_in c (ns ∷ rest) = []

abbrev cluster_bindings_of : ConfigDynamic → List ClusterRoleBinding
cluster_bindings_of c = cluster_bindings_in c c.include_namespaces

abbrev bindings_of : ConfigDynamic → List RoleBinding
bindings_of c = map (role_binding_of c) c.include_namespaces

append-mem_iff {ℓ} :
    {A : Type ℓ} (xs ys : List A) (x : A) → Memᴰ x (xs ++ ys) ↔ (Memᴰ x xs ⊎ Memᴰ x ys)
append-mem_iff xs ys x = (
  append-mem xs ys x,
  (λ h. elim h [ inl l ↦ mem-append_left xs ys x l | inr r ↦ mem-append_right xs ys x r ]),
)

nothing-mem_iff {ℓ} : {A : Type ℓ} (xs : List A) (x : A) → Memᴰ x xs ↔ (Memᴰ x xs ⊎ Memᴰ x [])
nothing-mem_iff xs x =
    ((λ m. inl m), (λ h. elim h [ inl m ↦ m | inr none_there ↦ elim none_there [ ] ]))

bind_namespaces-roles :
    (c : ConfigDynamic) (namespaces : List String) (m : AgentRbacManifests)
    → (bind_namespaces c namespaces m).cluster_roles ≡ m.cluster_roles
unfolding bind_namespaces
bind_namespaces-roles c [] m = refl
bind_namespaces-roles c (ns ∷ rest) m = refl

bind_namespaces-cluster_bindings :
    (c : ConfigDynamic) (namespaces : List String) (m : AgentRbacManifests) (b : ClusterRoleBinding)
    → Memᴰ b (bind_namespaces c namespaces m).cluster_role_bindings
      ↔ (Memᴰ b m.cluster_role_bindings ⊎ Memᴰ b (cluster_bindings_in c namespaces))
unfolding bind_namespaces cluster_bindings_in
bind_namespaces-cluster_bindings c [] m b =
    append-mem_iff m.cluster_role_bindings (cluster_role_binding_of c ∷ []) b
bind_namespaces-cluster_bindings c (ns ∷ rest) m b = nothing-mem_iff m.cluster_role_bindings b

bind_namespaces-bindings :
    (c : ConfigDynamic) (namespaces : List String) (m : AgentRbacManifests) (b : RoleBinding)
    → Memᴰ b (bind_namespaces c namespaces m).role_bindings
      ↔ (Memᴰ b m.role_bindings ⊎ Memᴰ b (map (role_binding_of c) namespaces))
unfolding bind_namespaces
bind_namespaces-bindings c [] m b = nothing-mem_iff m.role_bindings b
bind_namespaces-bindings c (ns ∷ rest) m b =
    append-mem_iff m.role_bindings (map (role_binding_of c) (ns ∷ rest)) b

add_gatherer-roles :
    (c : ConfigDynamic) (m : AgentRbacManifests) (r : ClusterRole)
    → Memᴰ r (add_gatherer c m).cluster_roles ↔ (Memᴰ r m.cluster_roles ⊎ Memᴰ r (roles_of c))
unfolding add_gatherer
add_gatherer-roles c m r =
    subst (λ (rs : List ClusterRole). Memᴰ r rs ↔ (Memᴰ r m.cluster_roles ⊎ Memᴰ r (roles_of c)))
      (sym (bind_namespaces-roles c c.include_namespaces _))
      (append-mem_iff m.cluster_roles (roles_of c) r)

add_gatherer-cluster_bindings :
    (c : ConfigDynamic) (m : AgentRbacManifests) (b : ClusterRoleBinding)
    → Memᴰ b (add_gatherer c m).cluster_role_bindings
      ↔ (Memᴰ b m.cluster_role_bindings ⊎ Memᴰ b (cluster_bindings_of c))
unfolding add_gatherer
add_gatherer-cluster_bindings c m b = bind_namespaces-cluster_bindings c c.include_namespaces _ b

add_gatherer-bindings :
    (c : ConfigDynamic) (m : AgentRbacManifests) (b : RoleBinding)
    → Memᴰ b (add_gatherer c m).role_bindings ↔ (Memᴰ b m.role_bindings ⊎ Memᴰ b (bindings_of c))
unfolding add_gatherer
add_gatherer-bindings c m b = bind_namespaces-bindings c c.include_namespaces _ b

one-mem {ℓ} : {A : Type ℓ} (x y : A) → Memᴰ x (y ∷ []) → x ≡ y
one-mem x y (Memᴰ.head e) = e
one-mem x y (Memᴰ.tail m) = elim m [ ]

cluster_bindings_in-mem_iff :
    (c : ConfigDynamic) (namespaces : List String) (b : ClusterRoleBinding)
    → Memᴰ b (cluster_bindings_in c namespaces)
      ↔ ((namespaces ≡ []) × (b ≡ cluster_role_binding_of c))
unfolding cluster_bindings_in
cluster_bindings_in-mem_iff c [] b =
    ((λ m. (refl, one-mem b (cluster_role_binding_of c) m)), (λ (e, same). Memᴰ.head same))
cluster_bindings_in-mem_iff c (ns ∷ rest) b = ((λ m. elim m [ ]), (λ (e, same). cc))

map-mem {ℓ κ} :
    {A : Type ℓ} {B : Type κ} (f : A → B) (xs : List A) (y : B)
    → Memᴰ y (map f xs)
    → (x : A) × Memᴰ x xs × (y ≡ f x)
map-mem f [] y m = elim m [ ]
map-mem f (x ∷ xs) y (Memᴰ.head e) = (x, Memᴰ.head refl, e)
map-mem f (x ∷ xs) y (Memᴰ.tail m) =
    let (x', later, e) = map-mem f xs y m in (x', Memᴰ.tail later, e)

mem-map {ℓ κ} :
    {A : Type ℓ} {B : Type κ} (f : A → B) (xs : List A) (y : B) (x : A)
    → Memᴰ x xs
    → y ≡ f x
    → Memᴰ y (map f xs)
mem-map f [] y x m e = elim m [ ]
mem-map f (z ∷ xs) y x (Memᴰ.head same) e = Memᴰ.head (e ∙ ap f same)
mem-map f (z ∷ xs) y x (Memᴰ.tail m) e = Memᴰ.tail (mem-map f xs y x m e)

-- The manifests hold a role for the resources of each gatherer of kind k8s-dynamic, a binding in the
-- cluster where the gatherer includes no namespaces, and otherwise a binding in each of these; and they
-- hold nothing else.
pub generate_agent_rbac_manifests-mem_iff :
    (config_of : DataGatherer → ConfigDynamic) (dgs : List DataGatherer) (r : ClusterRole)
    (b : ClusterRoleBinding) (n : RoleBinding)
    → let m = generate_agent_rbac_manifests config_of dgs in
      (Memᴰ r m.cluster_roles
        ↔ ((c : ConfigDynamic) × IsDynamic config_of dgs c × (r ≡ cluster_role_of c)))
      × (Memᴰ b m.cluster_role_bindings ↔ (
          (c : ConfigDynamic) × IsDynamic config_of dgs c
          × (c.include_namespaces ≡ [])
          × (b ≡ cluster_role_binding_of c)))
      × (Memᴰ n m.role_bindings ↔ (
          (c : ConfigDynamic) × IsDynamic config_of dgs c
          × (ns : String) × Memᴰ ns c.include_namespaces
          × (n ≡ role_binding_of c ns)))
unfolding generate_agent_rbac_manifests
generate_agent_rbac_manifests-mem_iff config_of dgs r b n =
    let none_yet : AgentRbacManifests = record {
      cluster_roles = [];
      cluster_role_bindings = [];
      role_bindings = [];
    } in
    let roles =
      manifests_loop-mem_iff config_of (λ m. m.cluster_roles) roles_of add_gatherer-roles dgs
        none_yet r in
    let cluster =
      manifests_loop-mem_iff config_of (λ m. m.cluster_role_bindings) cluster_bindings_of
        add_gatherer-cluster_bindings dgs none_yet b in
    let local =
      manifests_loop-mem_iff config_of (λ m. m.role_bindings) bindings_of add_gatherer-bindings dgs
        none_yet n in
    (
      (
        (λ m. elim (roles.0 m) [
          | inl none_there ↦ elim none_there [ ]
          | inr (c, d, own) ↦ (c, d, one-mem r (cluster_role_of c) own)
        ]),
        (λ (c, d, e). roles.1 (inr (c, d, Memᴰ.head e))),
      ),
      (
        (λ m. elim (cluster.0 m) [
          | inl none_there ↦ elim none_there [ ]
          | inr (c, d, own) ↦
              let (everywhere, e) = (cluster_bindings_in-mem_iff c c.include_namespaces b).0 own in
              (c, d, everywhere, e)
        ]),
        (λ (c, d, everywhere, e).
            cluster.1 (
              inr
                (c, d, (cluster_bindings_in-mem_iff c c.include_namespaces b).1 (everywhere, e)))),
      ),
      (
        (λ m. elim (local.0 m) [
          | inl none_there ↦ elim none_there [ ]
          | inr (c, d, own) ↦
              let (ns, there, e) = map-mem (role_binding_of c) c.include_namespaces n own in
              (c, d, ns, there, e)
        ]),
        (λ (c, d, ns, there, e).
            local.1 (inr (c, d, mem-map (role_binding_of c) c.include_namespaces n ns there e))),
      ),
    )
