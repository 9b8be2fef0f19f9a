-- ===== src/CyberArk/Publish/Uploaded.antt =====
-- What an upload to CyberArk holds.
use mathlib.Core.List.{Memᴰ}
use jetstack_secure.Prelude.{String, ◌≡◌, refl, sym, subst, false, Option, none, some, List}
use jetstack_secure.Prelude.Results.{Result, ok, err, >>=-eq-ok}
use jetstack_secure.K8sDynamic.Resources.{Resource}
use jetstack_secure.CyberArk.Snapshot.{
  Snapshot, DataReading, convert_data_readings, default_extractor_functions, names,
}
use jetstack_secure.CyberArk.Snapshot.Complete.{Extracts, IsRead, convert_data_readings_complete}
use jetstack_secure.CyberArk.Minimize.{Decoders, minimize_snapshot, is_excludable_secret}
use jetstack_secure.CyberArk.Minimize.Excluded.{minimize_snapshot-secrets_iff}
use jetstack_secure.CyberArk.Publish.{
  Options, PublishError, Publisher, wrap, base_snapshot_from_options, uploaded,
  post_data_readings_with_options,
}

wrap-inv :
    {A : Type 0} {E : Type 0} (f : E → PublishError) (r : Result E A) (a : A)
    → wrap f r ≡ ok a
    → r ≡ ok a
unfolding wrap
wrap-inv f (ok b) a h = cc
wrap-inv f (err e) a h = cc

uploaded-inv : (s t : Snapshot) (e : Option String) → uploaded s e ≡ ok t → (e ≡ none) × (s ≡ t)
unfolding uploaded
uploaded-inv s t none h = (refl, cc)
uploaded-inv s t (some e) h = cc

-- What an upload without an error has gone through.
pub record IsPosted (decoders : Decoders) (publisher : Publisher) (readings : List DataReading)
    (opts : Options) (s : Snapshot) : Type 0 where
  pub cfg : publisher.ClientConfig
  pub services : publisher.Services
  pub converted : Snapshot
  pub upload : publisher.UploadClient
  pub is_config : publisher.load_config ≡ ok cfg
  pub is_discovered : publisher.discover_services ≡ ok services
  pub is_converted :
      convert_data_readings default_extractor_functions readings
        (base_snapshot_from_options publisher.version opts)
      ≡ ok converted
  pub is_minimized : minimize_snapshot decoders converted ≡ s
  pub is_made : publisher.new_upload_client services cfg ≡ ok upload
  pub is_put : publisher.put_snapshot upload s ≡ none

pub post_data_readings_with_options-IsPosted :
    (decoders : Decoders) (publisher : Publisher) (readings : List DataReading) (opts : Options)
    (s : Snapshot)
    → post_data_readings_with_options decoders publisher readings opts ≡ ok s
    → IsPosted decoders publisher readings opts s
unfolding post_data_readings_with_options
post_data_readings_with_options-IsPosted decoders publisher readings opts s h =
    let (cfg, loaded, h1) = >>=-eq-ok (wrap PublishError.load_config publisher.load_config) _ h in
    let (services, found, h2) =
      >>=-eq-ok (wrap PublishError.discovery publisher.discover_services) _ h1 in
    let (converted, done, h3) =
      >>=-eq-ok
        (wrap PublishError.converting (
          convert_data_readings default_extractor_functions readings
            (base_snapshot_from_options publisher.version opts)))
        _ h2 in
    let (upload, made, h4) =
      >>=-eq-ok (wrap PublishError.initializing (publisher.new_upload_client services cfg)) _ h3 in
    let (put, same) =
      uploaded-inv (minimize_snapshot decoders converted) s
        (publisher.put_snapshot upload (minimize_snapshot decoders converted)) h4 in
    record {
      cfg = cfg;
      services = services;
      converted = converted;
      upload = upload;
      is_config = wrap-inv PublishError.load_config _ _ loaded;
      is_discovered = wrap-inv PublishError.discovery _ _ found;
      is_converted = wrap-inv PublishError.converting _ _ done;
      is_minimized = same;
      is_made = wrap-inv PublishError.initializing _ _ made;
      is_put = subst (λ (t : Snapshot). publisher.put_snapshot upload t ≡ none) same put;
    }

-- A snapshot that has been uploaded is the minimized result of the extractors of all the readings, run in
-- their order on the base snapshot; every gatherer with an extractor was read; and no secret of the
-- snapshot is excludable.
pub post_data_readings_with_options_ok :
    (decoders : Decoders) (publisher : Publisher) (readings : List DataReading) (opts : Options)
    (s : Snapshot)
    → post_data_readings_with_options decoders publisher readings opts ≡ ok s
    → ((converted : Snapshot) × Extracts default_extractor_functions readings
          (base_snapshot_from_options publisher.version opts)
          converted
        × (minimize_snapshot decoders converted ≡ s))
      × ((k : String) → Memᴰ k (names default_extractor_functions) → IsRead readings k)
      × ((r : Resource) → Memᴰ r s.secrets → is_excludable_secret decoders r ≡ false)
post_data_readings_with_options_ok decoders publisher readings opts s h =
    let posted = post_data_readings_with_options-IsPosted decoders publisher readings opts s h in
    let (extracts, read) =
      convert_data_readings_complete default_extractor_functions readings
        (base_snapshot_from_options publisher.version opts) posted.converted posted.is_converted in
    (
      (posted.converted, extracts, posted.is_minimized),
      read,
      λ r m.
          ((minimize_snapshot-secrets_iff decoders posted.converted r).0
            (subst (λ (t : Snapshot). Memᴰ r t.secrets) (sym posted.is_minimized) m)).1,
    )
