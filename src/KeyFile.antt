-- ===== src/KeyFile.antt =====
-- cmd/foundry/main.go, `loadOrCreateDEK`; internal/gui/gui.go, `deriveDEK`: the file foundry.key.json,
-- in which the password envelope of the key lies. `encoding/json` is a parameter.
pub mod Password
use mykeep_foundry.Prelude.{
  Bool, Bytes, Option, Result, err, if◌then◌else◌, none, ok, some, take, ℕ,
}
use mykeep_foundry.Secret.{Aead, SecretErr, Envelope, Kdf, Randomness, new_envelope, unwrap}

-- `json.Marshal` and `json.Unmarshal` of an envelope.
pub record EnvelopeJson : Type 0 where
  pub encode : Envelope → Bytes
  pub decode : Bytes → Option Envelope

-- How `os.WriteFile` goes: it writes all, it fails before it opens the file, or after so many bytes.
pub data Writing : Type 0 where
  whole_write no_write : Writing
  part_write : ℕ → Writing

-- What the machine decides: whether an existing file can be read, how a write goes, and what is read of
-- randomness.
pub record KeyIo : Type 0 where
  pub readable : Bool
  pub writing : Writing
  pub random : Randomness

pub data KeyErr : Type 0 where
  no_key_file key_unreadable bad_envelope key_not_written : KeyErr
  of_secret : SecretErr → KeyErr

-- `os.ReadFile`
read_file : Bool → Option Bytes → Result KeyErr Bytes
read_file readable none = err no_key_file
read_file readable (some b) = if readable then ok b else err key_unreadable

-- `os.WriteFile`
write_file : Writing → Bytes → Option Bytes → Result KeyErr (Unit {0}) × Option Bytes
write_file whole_write b file = (ok tt, some b)
write_file no_write b file = (err key_not_written, file)
write_file (part_write n) b file = (err key_not_written, some (take n b))

module _ (aead : Aead) (kdf : Kdf) (json : EnvelopeJson) where
  secret_key : Result SecretErr Bytes → Result KeyErr Bytes
  secret_key (ok dek) = ok dek
  secret_key (err e) = err (of_secret e)

  opened_envelope : Bytes → Option Envelope → Result KeyErr Bytes
  unfolding secret_key
  opened_envelope pw none = err bad_envelope
  opened_envelope pw (some e) = secret_key (unwrap aead kdf e pw)

  -- `json.Unmarshal` and `Unwrap`
  open_envelope : Bytes → Bytes → Result KeyErr Bytes
  unfolding opened_envelope
  open_envelope pw b = opened_envelope pw (json.decode b)

  written_key : Bytes → Result KeyErr (Unit {0}) × Option Bytes → Result KeyErr Bytes × Option Bytes
  written_key dek (ok _, file) = (ok dek, file)
  written_key dek (err e, file) = (err e, file)

  saved :
      KeyIo
      → Option Bytes
      → Result SecretErr (Envelope × Bytes)
      → Result KeyErr Bytes × Option Bytes
  unfolding write_file written_key
  saved io file (err e) = (err (of_secret e), file)
  saved io file (ok (e, dek)) = written_key dek (write_file io.writing (json.encode e) file)

  -- `NewEnvelope`, `json.Marshal` and `os.WriteFile`
  unfoldable pub create_key : KeyIo → Bytes → Option Bytes → Result KeyErr Bytes × Option Bytes
  unfolding saved
  create_key io pw file = saved io file (new_envelope aead kdf io.random pw)

  read_key : Bytes → Result KeyErr Bytes → Result KeyErr Bytes
  unfolding open_envelope
  read_key pw (err e) = err e
  read_key pw (ok b) = open_envelope pw b

  -- `deriveDEK`
  unfoldable pub derive_dek :
      Bool → KeyIo → Bytes → Option Bytes → Result KeyErr Bytes × Option Bytes
  unfolding read_file read_key create_key
  derive_dek create io pw file =
      if create then create_key io pw file else (read_key pw (read_file io.readable file), file)

  load_key : KeyIo → Bytes → Option Bytes → Result KeyErr Bytes → Result KeyErr Bytes × Option Bytes
  unfolding open_envelope create_key
  load_key io pw file (ok b) = (open_envelope pw b, file)
  load_key io pw file (err e) = create_key io pw file

  -- `loadOrCreateDEK`
  unfoldable pub load_or_create_dek :
      KeyIo → Bytes → Option Bytes → Result KeyErr Bytes × Option Bytes
  unfolding read_file load_key
  load_or_create_dek io pw file = load_key io pw file (read_file io.readable file)
