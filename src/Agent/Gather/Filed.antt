-- ===== src/Agent/Gather/Filed.antt =====
-- A round with the client that writes to a file.
use jetstack_secure.Prelude.{String, ◌≡◌, refl, ap, none, some, List}
use jetstack_secure.Prelude.Results.{Result, ok, err}
use jetstack_secure.Api.{DataReading}
use jetstack_secure.Clients.File.{FileSystem, Writer, written, write_readings, new_file_client}
use jetstack_secure.Agent.Config.{CombinedConfig}
use jetstack_secure.Agent.Gather.{Backoff, Inputs, readings_of, gather_and_output_data}
use jetstack_secure.Agent.Gather.Sent.{gather_and_output_data-IsSent}

-- The file holds the readings of the round.
pub record IsFiled {D : Type 0} (config : CombinedConfig) (writer : Writer D) (path : String)
    (inputs : Inputs D) (files : FileSystem) : Type 0 where
  pub readings : List (DataReading D)
  pub content : String
  pub are_readings : readings_of config inputs ≡ ok readings
  pub is_marshalled : writer.marshal_indent readings ≡ ok content
  pub is_there : files path ≡ some content

written-none :
    (files files' : FileSystem) (r : Result String FileSystem)
    → written files r ≡ (none, files')
    → r ≡ ok files'
unfolding written
written-none files files' (ok fs) h =
    let same : fs ≡ files' = cc in ap (λ (g : FileSystem). ok g) same
written-none files files' (err e) h = cc

module _ {D : Type 0} (writer : Writer D) (path : String) where
  write_readings-none :
      (files files' : FileSystem) (r : Result String String)
      → write_readings writer path files r ≡ (none, files')
      → (content : String) × (r ≡ ok content) × (writer.write_file path content files ≡ ok files')
  unfolding write_readings
  write_readings-none files files' (err e) h = cc
  write_readings-none files files' (ok content) h =
      (content, refl, written-none files files' (writer.write_file path content files) h)

  -- Where a file that is written has the content that was written, a round without an error, with the
  -- client that writes to a file, leaves the marshalled readings of the round in this file.
  pub gather_and_output_data-IsFiled :
      (backoff : Backoff) (config : CombinedConfig) (inputs : Inputs D) (files : FileSystem)
      → ((content : String) (fs fs' : FileSystem)
          → writer.write_file path content fs ≡ ok fs'
          → fs' path ≡ some content)
      → (gather_and_output_data backoff config (new_file_client writer path) inputs files).0 ≡ none
      → IsFiled config writer path inputs
          (gather_and_output_data backoff config (new_file_client writer path) inputs files).1
  gather_and_output_data-IsFiled backoff config inputs files writes h =
      let sent =
        gather_and_output_data-IsSent backoff config (new_file_client writer path) inputs files h in
      let (content, marshalled, put) =
        write_readings-none sent.state
          (gather_and_output_data backoff config (new_file_client writer path) inputs files).1
          (writer.marshal_indent sent.readings) sent.is_accepted in
      record {
        readings = sent.readings;
        content = content;
        are_readings = sent.are_readings;
        is_marshalled = marshalled;
        is_there = writes content sent.state _ put;
      }
