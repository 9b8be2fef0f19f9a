-- ===== src/Clients.antt =====
-- pkg/client: the clients that upload the readings.
pub mod Http
pub mod Instants
pub mod Keys
pub mod Oauth
pub mod ApiToken
pub mod File
pub mod VenafiCloud
pub mod Ngts
pub mod VenConn
pub mod Tests
use jetstack_secure.Prelude.{String, Option, List}
use jetstack_secure.Api.{DataReading}
use jetstack_secure.CyberArk.Publish.{Options}

-- The `Client` interface, over the state that a client changes when it posts. A post gives its error, or
-- nil.
pub record Client (D : Type 0) : Type 1 where
  pub State : Type 0
  pub post_data_readings_with_options :
      List (DataReading D) → Options → State → Option String × State
