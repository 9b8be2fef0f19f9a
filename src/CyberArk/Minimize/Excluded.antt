-- ===== src/CyberArk/Minimize/Excluded.antt =====
-- Which secrets `minimizeSnapshot` leaves out.
use mathlib.Core.List.{Memᴰ}
use jetstack_secure.Prelude.{
  String, ◌≡◌, ◌↔◌, refl, sym, ◌∙◌, true, false, not, ◌||◌, Option, none, some, [], ◌∷◌, arith,
  ◌==◌, eq_iff, Bool-cases, Option-cases, inl, inr, true≢false,
}
use jetstack_secure.Prelude.Results.{Result, ok, err}
use jetstack_secure.Prelude.Lists.{filter-mem, mem-filter}
use jetstack_secure.K8sDynamic.Values.{Value, null, bool, number, text, arr, obj, Fields, lookup}
use jetstack_secure.K8sDynamic.Resources.{Resource, unstructured}
use jetstack_secure.CyberArk.Snapshot.{Snapshot}
use jetstack_secure.CyberArk.Minimize.{
  Decoders, is_client_block, is_excludable_pem, is_excludable_tls_secret, is_excludable_data,
  is_excludable_secret, minimize_snapshot, search_pem,
}
use jetstack_secure.CyberArk.Minimize.Pem.{HasVisited, search_pem_iff}

module _ (decoders : Decoders) where
  open decoders use {decode_base64}

  -- The data holds a client certificate under `tls.crt`.
  pub record HasClientCertificate (m : Fields) : Type 0 where
    pub encoded : String
    pub input : String
    pub is_stored : lookup "tls.crt" m ≡ some (text encoded)
    pub is_decoded : decode_base64 encoded ≡ some input
    pub is_visited : HasVisited decoders (is_client_block decoders) input

  -- A TLS secret of the core API, with its data.
  pub record IsTlsSecret (o : Fields) (m : Fields) : Type 0 where
    pub is_secret : decoders.get_kind o ≡ "Secret"
    pub is_core : decoders.get_api_version o ≡ "v1"
    pub has_data : decoders.nested_map o ("data" ∷ []) ≡ ok (some m)
    pub is_tls : decoders.nested_string o ("type" ∷ []) ≡ ok (some "kubernetes.io/tls")

  HasClientCertificate-kept :
      (m : Fields) → HasClientCertificate m → is_excludable_tls_secret decoders m ≡ false
  unfolding is_excludable_tls_secret is_excludable_pem
  HasClientCertificate-kept m c =
      let found = (search_pem_iff decoders (is_client_block decoders) c.input).1 c.is_visited in
      rw (c.is_stored, c.is_decoded, found, is_excludable_tls_secret)

  pem-kept :
      (m : Fields) (v : String)
      → lookup "tls.crt" m ≡ some (text v)
      → is_excludable_pem decoders (decode_base64 v) ≡ false
      → HasClientCertificate m
  unfolding is_excludable_pem
  pem-kept m v e h = elim (Option-cases (decode_base64 v)) [
    | inl d ↦ let h' = rw d at h in cc
    | inr (input, d) ↦
        let h' = rw d at h in
        elim (Bool-cases (search_pem decoders input (some (is_client_block decoders)))) [
          | inl found ↦ record {
            encoded = v;
            input = input;
            is_stored = e;
            is_decoded = d;
            is_visited = (search_pem_iff decoders (is_client_block decoders) input).0 found;
          }
          | inr lost ↦ let h'' = rw lost at h' in cc
        ]
  ]

  kept-HasClientCertificate :
      (m : Fields) (found : Option Value)
      → lookup "tls.crt" m ≡ found
      → is_excludable_tls_secret decoders m ≡ false
      → HasClientCertificate m
  unfolding is_excludable_tls_secret
  kept-HasClientCertificate m none e h = let h' = rw (e, is_excludable_tls_secret) at h in cc
  kept-HasClientCertificate m (some null) e h = let h' = rw (e, is_excludable_tls_secret) at h in cc
  kept-HasClientCertificate m (some (bool b)) e h =
      let h' = rw (e, is_excludable_tls_secret) at h in cc
  kept-HasClientCertificate m (some (number n)) e h =
      let h' = rw (e, is_excludable_tls_secret) at h in cc
  kept-HasClientCertificate m (some (text v)) e h =
      pem-kept m v e (rw (e, is_excludable_tls_secret) at h)
  kept-HasClientCertificate m (some (arr xs)) e h =
      let h' = rw (e, is_excludable_tls_secret) at h in cc
  kept-HasClientCertificate m (some (obj m')) e h =
      let h' = rw (e, is_excludable_tls_secret) at h in cc

  excludable_data-inv :
      (found : Result String (Option Fields)) (kind : Result String (Option String))
      → is_excludable_data decoders found kind ≡ true
      → (m : Fields) × (found ≡ ok (some m))
        × (kind ≡ ok (some "kubernetes.io/tls"))
        × (is_excludable_tls_secret decoders m ≡ true)
  unfolding is_excludable_data
  excludable_data-inv (ok (some m)) (ok (some t)) h = elim (Bool-cases (t == "kubernetes.io/tls")) [
    | inl e ↦
        let same = (eq_iff t "kubernetes.io/tls").0 e in
        let h' = rw e at h in (m, refl, rw same refl, h')
    | inr e ↦ let h' = rw e at h in cc
  ]
  excludable_data-inv (ok (some m)) (ok none) h = cc
  excludable_data-inv (ok (some m)) (err e) h = cc
  excludable_data-inv (ok none) kind h = cc
  excludable_data-inv (err e) kind h = cc

  -- An object is left out exactly where it is a TLS secret of the core API, with a map of data that does
  -- not hold a client certificate.
  pub is_excludable_secret_iff :
      (o : Fields)
      → (is_excludable_secret decoders (unstructured o) ≡ true)
        ↔ ((m : Fields) × IsTlsSecret o m × ¬ HasClientCertificate m)
  unfolding is_excludable_secret
  is_excludable_secret_iff o = (
    λ h.
        elim (Bool-cases
          (not (decoders.get_kind o == "Secret") || not (decoders.get_api_version o == "v1"))) [
            | inl other ↦ let h' = rw other at h in cc
            | inr fits ↦
                let h' = rw fits at h in
                let (m, found, kind, excluded) =
                  excludable_data-inv (decoders.nested_map o ("data" ∷ []))
                    (decoders.nested_string o ("type" ∷ [])) h' in
                (
                  m,
                  record {
                    is_secret = ground (arith, eq_iff (decoders.get_kind o) "Secret");
                    is_core = ground (arith, eq_iff (decoders.get_api_version o) "v1");
                    has_data = found;
                    is_tls = kind;
                  },
                  λ c. true≢false (sym excluded ∙ HasClientCertificate-kept m c),
                )
          ],
    λ (m, s, lacks).
        rw (s.is_secret, s.is_core, s.has_data, s.is_tls, is_excludable_data)
          (elim (Bool-cases (is_excludable_tls_secret decoders m)) [
            | inl t ↦ t
            | inr f ↦ absurd (lacks (kept-HasClientCertificate m (lookup "tls.crt" m) refl f))
          ]),
  )

  -- The secrets of a minimized snapshot are the secrets of the snapshot that are not excludable.
  pub minimize_snapshot-secrets_iff :
      (s : Snapshot) (r : Resource)
      → Memᴰ r (minimize_snapshot decoders s).secrets
        ↔ (Memᴰ r s.secrets × (is_excludable_secret decoders r ≡ false))
  unfolding minimize_snapshot
  minimize_snapshot-secrets_iff s r = (
    λ m. let (m', t) = filter-mem _ s.secrets r m in (m', ground arith),
    λ (m, t). mem-filter _ s.secrets r m (rw t refl),
  )
