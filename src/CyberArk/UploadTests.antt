-- ===== src/CyberArk/UploadTests.antt =====
-- A snapshot that is put at a small server.
use jetstack_secure.Prelude.{String, ◌≡◌, refl, false, none}
use jetstack_secure.Prelude.Results.{ok, err}
use jetstack_secure.Clients.Http.{Web}
use jetstack_secure.CyberArk.Snapshot.{Snapshot}
use jetstack_secure.CyberArk.Publish.{base_snapshot_from_options}
use jetstack_secure.CyberArk.Upload.{CyberArkClient, Library, UploadError, put_snapshot}
use jetstack_secure.CyberArk.Upload.Stored.{IsStored, put_snapshot-IsStored}

abbrev pub server : Web
server = record {
  refuses = λ url. none;
  perform = λ request. ok (record { status_code = 200; body = ok "https://bucket.example.com" });
}

abbrev client : CyberArkClient
client = record {
  posts = server;
  puts = server;
  base_url = "https://inventory.example.com";
  tenant_uuid = "t1";
  authenticate_request = λ request. ok ("user", request);
}

abbrev pub library : Library
library = record {
  encode_snapshot = λ snapshot. ok "{}";
  encode_request = λ request. ok "{}";
  decode_url = λ body. ok body;
  checksum_hex = λ body. "44";
  checksum_base64 = λ body. "RA==";
  size = λ body. 2;
  join_path = λ base path. ok base;
  encode_form = λ form. "form";
  preflight_version = "v1";
  user_agent = "agent";
  telemetry = ("X-Telemetry", "1");
}

-- A snapshot with nothing in it, of a cluster or of none.
unfoldable snapshot : String → Snapshot
unfolding base_snapshot_from_options
snapshot cluster_id =
    record (base_snapshot_from_options "v1" (record {
      org_id = "";
      cluster_id = "";
      cluster_name = "web";
      cluster_description = "";
      claimable_certs = false;
    })) { cluster_id = cluster_id }

put_snapshot_tests :
    (put_snapshot client library (snapshot "c1") ≡ ok tt)
    × (put_snapshot client library (snapshot "") ≡ err UploadError.empty_cluster_id)
unfolding put_snapshot snapshot
put_snapshot_tests = (refl, refl)

put_snapshot-IsStored_example : IsStored client library (snapshot "c1")
unfolding put_snapshot snapshot
put_snapshot-IsStored_example = put_snapshot-IsStored client library (snapshot "c1") tt refl
