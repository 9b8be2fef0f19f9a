-- ===== src/Clients/Http.antt =====
-- pkg/client/client.go: `fullURL`, and the requests of package net/http that the clients make.
pub mod Posts
use Prim.Native.String.{String, ◌∷◌, []}
use jetstack_secure.Prelude.{
  ℕ, Bool, true, false, ◌&&◌, Option, List, ◌==◌, leb, ltb, if◌then◌else◌, none, some, ◌≡◌, ◌≤◌,
  ◌<◌, arith, inl, inr, Option-cases,
}
use jetstack_secure.Prelude.Results.{Result, ok, err, map_err, map_err_ok}
use jetstack_secure.Prelude.Texts.{concat}

-- A POST request.
pub record Request : Type 0 where
  pub url : String
  pub headers : List (String × String)
  pub body : String

-- A response: the status code, and its body or why it cannot be read.
pub record Response : Type 0 where
  pub status_code : ℕ
  pub body : Result String String

-- `http.NewRequestWithContext` refuses some URLs, and `Do` gives a response or an error.
pub record Web : Type 0 where
  pub refuses : String → Option String
  pub perform : Request → Result String Response

-- `200 <= code && code < 300`.
unfoldable pub is_success : ℕ → Bool
is_success code = leb 200 code && ltb code 300

-- The loop that trims the slashes at the start.
unfoldable pub trim_prefix : String → String
trim_prefix [] = []
trim_prefix (c ∷ s) = let rest = trim_prefix s in if (c ∷ []) == "/" then rest else c ∷ s

-- The loop that trims the slashes at the end, from the last character to the first.
unfoldable pub trim_suffix : String → String
trim_suffix [] = []
trim_suffix (c ∷ s) =
    let rest = trim_suffix s in if rest == "" && (c ∷ []) == "/" then [] else c ∷ rest

-- `strings.HasSuffix(s, "/")`.
unfoldable pub ends_in_slash : String → Bool
ends_in_slash [] = false
ends_in_slash (c ∷ s) = let later = ends_in_slash s in if s == "" then (c ∷ []) == "/" else later

unfoldable pub full_url : String → String → String
unfolding trim_prefix trim_suffix
full_url base_url path = concat (trim_suffix base_url) (concat "/" (trim_prefix path))

-- The response to a request, if it can be made and is answered.
unfoldable pub exchange : Web → Request → Result String Response
exchange web request = elim (web.refuses request.url) [
  | some e ↦ err e
  | none ↦ web.perform request
]

exchange_ok :
    (web : Web) (request : Request) {response : Response}
    → exchange web request ≡ ok response
    → web.perform request ≡ ok response
unfolding exchange
exchange_ok web request h = elim (Option-cases (web.refuses request.url)) [
  | inl made ↦ rw (made, exchange) at h
  | inr (e, refused) ↦ let h' = rw (refused, exchange) at h in cc
]

-- The same under another error.
pub exchange-map_err_ok {ℓ} :
    {E : Type ℓ} (f : String → E) (web : Web) (request : Request) {response : Response}
    → map_err f (exchange web request) ≡ ok response
    → web.perform request ≡ ok response
exchange-map_err_ok f web request h =
    exchange_ok web request (map_err_ok f (exchange web request) h)

pub is_success-inv : (code : ℕ) → is_success code ≡ true → (200 ≤ code) × (code < 300)
unfolding is_success
is_success-inv code h = ground arith
