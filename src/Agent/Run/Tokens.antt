-- ===== src/Agent/Run/Tokens.antt =====
-- The main loop with the OAuth client: the tokens that it holds.
use jetstack_secure.Prelude.{ℕ, String, List}
use jetstack_secure.Clients.Http.{Web}
use jetstack_secure.Clients.Oauth.{
  OAuthClient, OAuthError, Library, Clock, post_data_readings_with_options,
}
use jetstack_secure.Clients.Oauth.Held.{HasGrantedToken, post_data_readings-HasGrantedToken}
use jetstack_secure.Clients.Oauth.Poster.{oauth_poster}
use jetstack_secure.Agent.Config.{CombinedConfig}
use jetstack_secure.Agent.Gather.{Backoff, options_of}
use jetstack_secure.Agent.Run.{Turn, run_loop}
use jetstack_secure.Agent.Run.Rounds.{run_loop-keeps}

-- Whatever the turns of the main loop find and whatever the servers answer, the OAuth client has no token
-- after them, or one that the authorization server granted to its credentials, if this was so before.
pub run_loop-HasGrantedToken :
    {D : Type 0} (web : Web) (library : Library D) (message : OAuthError → String)
    (clock : ℕ → Clock) (backoff : Backoff) (config : CombinedConfig) (turns : List (Turn D))
    (c : OAuthClient) (n : ℕ)
    → HasGrantedToken web library c
    → HasGrantedToken web library
        (run_loop backoff config (oauth_poster web library message clock) turns (c, n)).1.0
unfolding post_data_readings_with_options
run_loop-HasGrantedToken web library message clock backoff config turns c n h =
    run_loop-keeps backoff config (oauth_poster web library message clock)
      (λ s. HasGrantedToken web library s.0) turns (c, n)
      (λ readings s p.
        post_data_readings-HasGrantedToken web library (clock s.1) (options_of config).org_id
          (options_of config).cluster_id readings s.0 p)
      h
