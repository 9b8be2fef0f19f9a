-- ===== src/Clients/Oauth/Poster.antt =====
-- pkg/client/client_oauth.go: `PostDataReadingsWithOptions`, as an instance of the interface that the main
-- loop posts to. The state is the client and the number of its posts; each post has its own clock.
use jetstack_secure.Prelude.{ℕ, ◌+◌, String, Option, none, some}
use jetstack_secure.Clients.{Client}
use jetstack_secure.Clients.Http.{Web}
use jetstack_secure.Clients.Oauth.{
  OAuthClient, OAuthError, Library, Clock, post_data_readings_with_options,
}

-- `Error()` of an error that is not nil.
unfoldable pub error_message : (OAuthError → String) → Option OAuthError → Option String
error_message message none = none
error_message message (some e) = some (message e)

abbrev pub oauth_poster :
    {D : Type 0} → Web → Library D → (OAuthError → String) → (ℕ → Clock) → Client D
oauth_poster web library message clock = record {
  State = OAuthClient × ℕ;
  post_data_readings_with_options = λ readings opts (c, n).
      let (failure, c') = post_data_readings_with_options web library (clock n) readings opts c in
      (error_message message failure, (c', n + 1));
}
