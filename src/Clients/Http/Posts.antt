-- ===== src/Clients/Http/Posts.antt =====
-- pkg/client: what the requests that upload the readings hold, told without the code that makes them.
use mathlib.Core.List.{Memᴰ}
use jetstack_secure.Prelude.{
  String, Bool, [], ◌∷◌, ◌++◌, ◌≡◌, refl, Bool-cases, is_set, if◌then◌else◌, eq_iff, ◌⊎◌, inl, inr,
  arith,
}
use jetstack_secure.Prelude.Texts.{concat}
use jetstack_secure.CyberArk.Publish.{Options}
use jetstack_secure.Clients.Http.{Request}
use jetstack_secure.Clients.VenafiCloud.{Library}

-- The body is posted as JSON to the URL, with the token unless this is empty.
pub record IsJsonPost (request : Request) (url body token user_agent : String) : Type 0 where
  pub is_url : request.url ≡ url
  pub is_body : request.body ≡ body
  pub is_json : Memᴰ ("Content-Type", "application/json") request.headers
  pub accepts_json : Memᴰ ("Accept", "application/json") request.headers
  pub has_agent : Memᴰ ("User-Agent", user_agent) request.headers
  pub has_token : (token ≡ "") ⊎ Memᴰ ("Authorization", concat "Bearer " token) request.headers

-- The URL of the library with its own query and the options that are set. Not every upload tells that the
-- certificates can be claimed.
abbrev pub url_with_options :
    {D : Type 0} (library : Library D) → library.Url → Options → Bool → String
url_with_options library url opts claimable = library.with_query url (
    library.query url
    ++ ((if is_set opts.cluster_name then ("name", library.sanitize opts.cluster_name) ∷ [] else [])
        ++ ((if is_set opts.cluster_description
              then ("description", library.base64_url (library.sanitize opts.cluster_description))
                ∷ []
              else [])
            ++ (if claimable then ("certOwnership", "unassigned") ∷ [] else []))))

-- The headers of the clients that leave out an empty token.
pub IsJsonPost-of_headers :
    (url body token user_agent : String)
    → IsJsonPost
        (record {
          url = url;
          headers =
              ("Accept", "application/json")
              ∷ ("Content-Type", "application/json")
              ∷ ("User-Agent", user_agent)
              ∷ (if is_set token then ("Authorization", concat "Bearer " token) ∷ [] else []);
          body = body;
        })
        url
        body
        token
        user_agent
IsJsonPost-of_headers url body token user_agent = record {
  is_url = refl;
  is_body = refl;
  is_json = Memᴰ.tail (Memᴰ.head refl);
  accepts_json = Memᴰ.head refl;
  has_agent = Memᴰ.tail (Memᴰ.tail (Memᴰ.head refl));
  has_token = elim (Bool-cases (is_set token)) [
    | inl set ↦ rw set (inr (Memᴰ.tail (Memᴰ.tail (Memᴰ.tail (Memᴰ.head refl)))))
    | inr unset ↦ inl ((eq_iff token "").0 (ground arith))
  ];
}
