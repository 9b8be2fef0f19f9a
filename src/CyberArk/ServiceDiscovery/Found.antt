-- ===== src/CyberArk/ServiceDiscovery/Found.antt =====
-- Which services are found, and how long they are used.
use mathlib.Core.List.{Memᴰ}
use jetstack_secure.Prelude.{
  ℕ, String, ◌≡◌, refl, sym, ap, ◌∙◌, true, not, some, List, [], ◌∷◌, arith, ◌==◌, eq_iff, eqb,
  is_set, true≢false, Bool-cases, Option-cases, inl, inr, ◌⊎◌,
}
use jetstack_secure.Prelude.Results.{Result, ok, err, >>=-eq-ok, Result-cases}
use jetstack_secure.CyberArk.ServiceDiscovery.{
  ServiceEndpoint, Service, DiscoveryResponse, Services, DiscoveryServer, DiscoveryClient,
  is_usable, main_api, scan, decode, answered, endpoint_at, services_of, request_services,
  cached_services, store_services, discover_services,
}

-- The API is that of an active main endpoint of a service of the name.
pub record IsOffered (name : String) (svcs : List Service) (api : String) : Type 0 where
  pub service : Service
  pub endpoint : ServiceEndpoint
  pub has_service : Memᴰ service svcs
  pub has_name : service.service_name ≡ name
  pub has_endpoint : Memᴰ endpoint service.endpoints
  pub is_main : endpoint.kind ≡ "main"
  pub is_active : endpoint.is_active ≡ true
  pub is_api : endpoint.api ≡ api

is_usable-inv :
    (ep : ServiceEndpoint) → is_usable ep ≡ true → (ep.kind ≡ "main") × (ep.is_active ≡ true)
unfolding is_usable
is_usable-inv ep h = ((eq_iff ep.kind "main").0 (ground arith), ground arith)

main_api-mem :
    (before : String) (eps : List ServiceEndpoint)
    → (main_api before eps ≡ before)
      ⊎ ((ep : ServiceEndpoint) × Memᴰ ep eps
          × (is_usable ep ≡ true)
          × (ep.api ≡ main_api before eps))
unfolding main_api
main_api-mem before [] = inl refl
main_api-mem before (ep ∷ eps) = elim (Bool-cases (is_usable ep)) [
  | inl t ↦ inr (ep, Memᴰ.head refl, t, rw (t, main_api) refl)
  | inr f ↦ elim (main_api-mem before eps) [
    | inl kept ↦ inl (rw (f, main_api) kept)
    | inr (e, m, t, same) ↦ inr (e, Memᴰ.tail m, t, rw (f, main_api) same)
  ]
]

IsOffered-later :
    (name : String) (svc : Service) (svcs : List Service) (api : String)
    → IsOffered name svcs api
    → IsOffered name (svc ∷ svcs) api
IsOffered-later name svc svcs api o = record {
  service = o.service;
  endpoint = o.endpoint;
  has_service = Memᴰ.tail o.has_service;
  has_name = o.has_name;
  has_endpoint = o.has_endpoint;
  is_main = o.is_main;
  is_active = o.is_active;
  is_api = o.is_api;
}

scan-identity :
    (identity context : String) (svcs : List Service)
    → ((scan (identity, context) svcs).0 ≡ identity)
      ⊎ IsOffered "identity_administration" svcs (scan (identity, context) svcs).0
unfolding scan
scan-identity identity context [] = inl refl
scan-identity identity context (svc ∷ svcs) =
    elim (Bool-cases (svc.service_name == "identity_administration")) [
      | inl e ↦
          rw (e, scan)
            (elim (scan-identity (main_api identity svc.endpoints) context svcs) [
              | inl kept ↦ elim (main_api-mem identity svc.endpoints) [
                | inl same ↦ inl (kept ∙ same)
                | inr (ep, m, t, same) ↦ inr (record {
                  service = svc;
                  endpoint = ep;
                  has_service = Memᴰ.head refl;
                  has_name = (eq_iff svc.service_name "identity_administration").0 e;
                  has_endpoint = m;
                  is_main = (is_usable-inv ep t).0;
                  is_active = (is_usable-inv ep t).1;
                  is_api = same ∙ sym kept;
                })
              ]
              | inr o ↦ inr (IsOffered-later "identity_administration" svc svcs _ o)
            ])
      | inr f ↦ elim (Bool-cases (svc.service_name == "discoverycontext")) [
        | inl e ↦
            rw (f, e, scan)
              (elim (scan-identity identity (main_api context svc.endpoints) svcs) [
                | inl kept ↦ inl kept
                | inr o ↦ inr (IsOffered-later "identity_administration" svc svcs _ o)
              ])
        | inr g ↦
            rw (f, g, scan)
              (elim (scan-identity identity context svcs) [
                | inl kept ↦ inl kept
                | inr o ↦ inr (IsOffered-later "identity_administration" svc svcs _ o)
              ])
      ]
    ]

-- The services of a response have an identity API that is set, and that an active main endpoint offers.
services_of-inv :
    (r : DiscoveryResponse) (found : Services × String)
    → services_of r ≡ ok found
    → (found.1 ≡ r.tenant_id)
      × (is_set found.0.identity.api ≡ true)
      × IsOffered "identity_administration" r.services found.0.identity.api
unfolding services_of
services_of-inv r found h = elim (Bool-cases ((scan ("", "") r.services).0 == "")) [
  | inl none_found ↦ let h' = rw (none_found, services_of) at h in cc
  | inr some_found ↦
      let h' = rw (some_found, services_of) at h in
      let same : (
        record {
          identity = endpoint_at (scan ("", "") r.services).0;
          discovery_context = endpoint_at (scan ("", "") r.services).1;
        },
        r.tenant_id,
      )
          ≡ found =
        cc in
      rw (← same) (
        refl,
        ap not some_found,
        elim (scan-identity "" "" r.services) [
          | inl kept ↦
              absurd
                (true≢false (sym ((eq_iff (scan ("", "") r.services).0 "").1 kept) ∙ some_found))
          | inr o ↦ o
        ],
      )
]

decode-inv :
    (subdomain : String) (answer : ℕ × Result String DiscoveryResponse) (r : DiscoveryResponse)
    → decode subdomain answer ≡ ok r
    → answer ≡ (200, ok r)
unfolding decode
decode-inv subdomain (status, ok r') r h = elim (Bool-cases (eqb status 200)) [
  | inl e ↦
      let h' = rw (e, decode) at h in
      let same : r' ≡ r = cc in
      let status_same : status ≡ 200 = ground arith in λ i. (status_same i, ok (same i))
  | inr f ↦ let h' = rw (f, decode) at h in cc
]
decode-inv subdomain (status, err e) r h = elim (Bool-cases (eqb status 200)) [
  | inl t ↦ let h' = rw (t, decode) at h in cc
  | inr f ↦ let h' = rw (f, decode) at h in cc
]

answered-inv :
    (a : Result String (ℕ × Result String DiscoveryResponse))
    (b : ℕ × Result String DiscoveryResponse)
    → answered a ≡ ok b
    → a ≡ ok b
unfolding answered
answered-inv (ok a) b h = cc
answered-inv (err e) b h = cc

request_services-inv :
    (server : DiscoveryServer) (subdomain : String) (found : Services × String)
    → request_services server subdomain ≡ ok found
    → (r : DiscoveryResponse) × (server subdomain ≡ ok (200, ok r)) × (services_of r ≡ ok found)
unfolding request_services
request_services-inv server subdomain found h =
    let (answer, replied, h1) = >>=-eq-ok (answered (server subdomain)) _ h in
    let (r, decoded, h2) = >>=-eq-ok (decode subdomain answer) services_of h1 in
    (
      r,
      answered-inv (server subdomain) answer replied
          ∙ ap (λ (a : ℕ × Result String DiscoveryResponse). ok a)
              (decode-inv subdomain answer r decoded),
      h2,
    )

-- Services that are returned come from the cache, within the hour, or from the answer of the server to the
-- request for the subdomain; in the second case they are cached, and their identity API is set, and is
-- that of an active main endpoint of the identity service.
pub discover_services_ok :
    (server : DiscoveryServer) (now done : ℕ) (c : DiscoveryClient) (services : Services)
    (tenant : String)
    → (discover_services server now done c).0 ≡ ok (services, tenant)
    → ((cached_services c now ≡ some services) × ((discover_services server now done c).1 ≡ c))
      ⊎ ((r : DiscoveryResponse) × (server c.subdomain ≡ ok (200, ok r))
          × (tenant ≡ r.tenant_id)
          × (is_set services.identity.api ≡ true)
          × IsOffered "identity_administration" r.services services.identity.api
          × ((discover_services server now done c).1 ≡ record c {
            cached_response = some services;
            cached_tenant_id = tenant;
            cached_response_time = done;
          }))
unfolding discover_services
discover_services_ok server now done c services tenant h =
    elim (Option-cases (cached_services c now)) [
      | inl empty ↦ elim (Result-cases (request_services server c.subdomain)) [
        | inl (found, asked) ↦
            let h' = rw (empty, discover_services, asked, store_services) at h in
            let same : found ≡ (services, tenant) = cc in
            let (r, reply, offered) = request_services-inv server c.subdomain found asked in
            let (id, set, o) = services_of-inv r found offered in
            inr (
              r,
              reply,
              sym (ap (λ (p : Services × String). p.1) same) ∙ id,
              rw same at set,
              rw same at o,
              rw (empty, discover_services, asked, store_services)
                  (ap
                    (λ (p : Services × String). record c {
                      cached_response = some p.0;
                      cached_tenant_id = p.1;
                      cached_response_time = done;
                    })
                    same),
            )
        | inr (e, failed) ↦
            let h' = rw (empty, discover_services, failed, store_services) at h in cc
      ]
      | inr (s, full) ↦
          let h' = rw (full, discover_services) at h in
          let same : s ≡ services = cc in
          inl (full ∙ ap (λ (x : Services). some x) same, rw (full, discover_services) refl)
    ]
