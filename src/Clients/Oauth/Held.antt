-- ===== src/Clients/Oauth/Held.antt =====
-- Whose token the client holds after uploads, whatever comes of them.
use jetstack_secure.Prelude.{ℕ, ◌≡◌, ap, sym, subst, String, Option, List, ◌⊎◌, inl, inr}
use jetstack_secure.Prelude.Results.{err, Result-cases}
use jetstack_secure.Api.{DataReading}
use jetstack_secure.Clients.Http.{Web}
use jetstack_secure.Clients.Oauth.{
  OAuthClient, OAuthError, Library, Clock, get_valid_access_token, upload_path, payload,
  post_data_readings,
}
use jetstack_secure.Clients.Oauth.Grants.{IsAuthorized, get_valid_access_token_ok, IsGranted}
use jetstack_secure.Clients.Oauth.Uploads.{
  post_ok, post_err, post_data_readings_marshalled, post_data_readings_err,
}

module _ {D : Type 0} (web : Web) (library : Library D) where
  -- The client after an upload, whatever comes of it.
  post_data_readings-client :
      (clock : Clock) (org_id cluster_id : String) (readings : List (DataReading D))
      (c : OAuthClient)
      → ((post_data_readings web library clock org_id cluster_id readings c).1 ≡ c)
        ⊎ IsAuthorized web library clock c
            (post_data_readings web library clock org_id cluster_id readings c).1
  post_data_readings-client clock org_id cluster_id readings c =
      elim (Result-cases (library.marshal (payload web library clock c readings))) [
        | inr (e, failed) ↦ inl (
            ap (λ (r : Option OAuthError × OAuthClient). r.1)
              (post_data_readings_err web library clock org_id cluster_id readings c e failed))
        | inl (body, made) ↦ elim (Result-cases (get_valid_access_token web library clock c)) [
          | inr (e, failed) ↦ inl (
              ap (λ (r : Option OAuthError × OAuthClient). r.1)
                (post_data_readings_marshalled web library clock org_id cluster_id readings c body
                  (err e) c made
                  (post_err web library clock (upload_path web library org_id cluster_id) body c e
                    failed)))
          | inl (c', valid) ↦
              let ran =
                post_data_readings_marshalled web library clock org_id cluster_id readings c body _
                  c' made
                  (post_ok web library clock (upload_path web library org_id cluster_id) body c c'
                    valid) in
              inr (
                subst (IsAuthorized web library clock c)
                  (sym (ap (λ (r : Option OAuthError × OAuthClient). r.1) ran))
                  (get_valid_access_token_ok web library clock c valid))
        ]
      ]

  -- The client has no token, or one that the authorization server granted to its credentials.
  abbrev pub HasGrantedToken : OAuthClient → Type 0
  HasGrantedToken c =
      (c.access_token.bearer ≡ "")
      ⊎ ((now : ℕ) × IsGranted web library now c.credentials c.access_token)

  IsAuthorized-HasGrantedToken :
      (clock : Clock) (c c' : OAuthClient)
      → IsAuthorized web library clock c c'
      → HasGrantedToken c
      → HasGrantedToken c'
  IsAuthorized-HasGrantedToken clock c c' (IsAuthorized.kept same set alive) h =
      subst HasGrantedToken (sym same) h
  IsAuthorized-HasGrantedToken clock c c' (IsAuthorized.renewed t old given same) h =
      subst HasGrantedToken (sym same) (inr (clock.renewed, given))

  -- Whatever comes of an upload, it keeps this of the client: it has no token, or one that the
  -- authorization server granted to its credentials.
  pub post_data_readings-HasGrantedToken :
      (clock : Clock) (org_id cluster_id : String) (readings : List (DataReading D))
      (c : OAuthClient)
      → HasGrantedToken c
      → HasGrantedToken (post_data_readings web library clock org_id cluster_id readings c).1
  post_data_readings-HasGrantedToken clock org_id cluster_id readings c h =
      elim (post_data_readings-client clock org_id cluster_id readings c) [
        | inl same ↦ subst HasGrantedToken (sym same) h
        | inr authorized ↦ IsAuthorized-HasGrantedToken clock c _ authorized h
      ]
