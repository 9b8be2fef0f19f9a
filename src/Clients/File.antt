-- ===== src/Clients/File.antt =====
-- pkg/client/client_file.go: the client that writes the readings to a file, as an instance of the
-- interface that the main loop posts to.
use jetstack_secure.Prelude.{String, Option, none, some, List}
use jetstack_secure.Prelude.Results.{Result, ok, err}
use jetstack_secure.Prelude.Texts.{concat}
use jetstack_secure.Api.{DataReading}
use jetstack_secure.Clients.{Client}

-- A file system: the content of the files that there are.
abbrev pub FileSystem : Type 0
FileSystem = String → Option String

-- `json.MarshalIndent`, and `os.WriteFile`, which gives the files afterwards, or fails.
pub record Writer (D : Type 0) : Type 0 where
  pub marshal_indent : List (DataReading D) → Result String String
  pub write_file : String → String → FileSystem → Result String FileSystem

unfoldable pub written : FileSystem → Result String FileSystem → Option String × FileSystem
written files (ok files') = (none, files')
written files (err e) = (some (concat "failed to write file: " e), files)

unfoldable pub write_readings :
    {D : Type 0}
    → Writer D
    → String
    → FileSystem
    → Result String String
    → Option String × FileSystem
unfolding written
write_readings writer path files (err e) = (some (concat "failed to marshal JSON: " e), files)
write_readings writer path files (ok content) = written files (writer.write_file path content files)

abbrev pub new_file_client : {D : Type 0} → Writer D → String → Client D
new_file_client writer path = record {
  State = FileSystem;
  post_data_readings_with_options =
      λ readings opts files. write_readings writer path files (writer.marshal_indent readings);
}
