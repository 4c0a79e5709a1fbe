-- ===== src/KeyFile/Password.antt =====
-- The key file against the password.
use mykeep_foundry.KeyFile.{
  read_file, write_file, secret_key, opened_envelope, open_envelope, written_key, saved, read_key,
  load_key, EnvelopeJson, KeyIo, Writing, whole_write, no_write, part_write, KeyErr, create_key,
  derive_dek, load_or_create_dek,
}
use mykeep_foundry.Prelude.{
  Bytes, Option, Result, ap, arith, err, false, length, ok, refl, some, true, ◌≡◌,
}
use mykeep_foundry.Secret.{
  Aead, SecretErr, Envelope, Kdf, Randomness, new_envelope, unwrap, unwrap-new_envelope,
}

-- What is relied on of JSON: an envelope reads back as it was written.
abbrev pub ReadsBack : EnvelopeJson → Type 0
ReadsBack json = (e : Envelope) → json.decode (json.encode e) ≡ some e

-- A whole nonce was read.
pub record WholeNonce (aead : Aead) (random : Randomness) : Type 0 where
  pub nonce : Bytes
  pub read : random.nonce ≡ some nonce
  pub whole : length nonce ≡ aead.nonce_size

module _ (aead : Aead) (kdf : Kdf) (json : EnvelopeJson) where
  written-ok :
      (w : Writing) (b dek' : Bytes) (file : Option Bytes) {dek : Bytes}
      → (written_key aead kdf json dek' (write_file w b file)).0 ≡ ok dek
      → (dek' ≡ dek) × ((written_key aead kdf json dek' (write_file w b file)).1 ≡ some b)
  unfolding written_key write_file
  written-ok whole_write b dek' file h = (ground arith, refl)
  written-ok no_write b dek' file h = cc
  written-ok (part_write n) b dek' file h = cc

  saved-ok :
      (io : KeyIo) (file : Option Bytes) (r : Result SecretErr (Envelope × Bytes)) {dek : Bytes}
      → (saved aead kdf json io file r).0 ≡ ok dek
      → (e : Envelope) × (r ≡ ok (e, dek))
        × ((saved aead kdf json io file r).1 ≡ some (json.encode e))
  unfolding saved
  saved-ok io file (err x) h = cc
  saved-ok io file (ok (e, dek')) {dek} h =
      let (same, there_now) = written-ok io.writing (json.encode e) dek' file h in
      (e, ap (λ (k : Bytes). ok (e, k)) same, there_now)

  -- The file holds an envelope that the password opens to the key.
  pub record Locks (pw dek : Bytes) (file : Option Bytes) : Type 0 where
    pub envelope : Envelope
    pub on_file : file ≡ some (json.encode envelope)
    pub unwraps : unwrap aead kdf envelope pw ≡ ok dek

  create_key-Locks :
      (io : KeyIo) (pw : Bytes) (file : Option Bytes) {dek : Bytes}
      → WholeNonce aead io.random
      → (create_key aead kdf json io pw file).0 ≡ ok dek
      → Locks pw dek (create_key aead kdf json io pw file).1
  unfolding create_key
  create_key-Locks io pw file n h =
      let (e, made, on_disk) = saved-ok io file (new_envelope aead kdf io.random pw) h in
      record {
        envelope = e;
        on_file = on_disk;
        unwraps = unwrap-new_envelope aead kdf io.random n.nonce pw n.read n.whole made;
      }

  open_envelope-Locks :
      (pw : Bytes) (e : Envelope) {dek : Bytes}
      → ReadsBack json
      → unwrap aead kdf e pw ≡ ok dek
      → open_envelope aead kdf json pw (json.encode e) ≡ ok dek
  unfolding open_envelope opened_envelope secret_key
  open_envelope-Locks pw e back h = rw (back e) (rw h refl)

  -- A key that was made under a password is the key that the password opens, from then on, in the
  -- browser's program and in the headless one alike. (The nonce was whole, an envelope reads back as it
  -- was written, and the later reads of the file work.)
  pub derive_dek-create :
      (io later : KeyIo) (pw : Bytes) (file : Option Bytes) {dek : Bytes}
      → WholeNonce aead io.random
      → ReadsBack json
      → later.readable ≡ true
      → (derive_dek aead kdf json true io pw file).0 ≡ ok dek
      → let made = (derive_dek aead kdf json true io pw file).1 in
        (derive_dek aead kdf json false later pw made ≡ (ok dek, made))
        × (load_or_create_dek aead kdf json later pw made ≡ (ok dek, made))
  unfolding derive_dek load_or_create_dek
  derive_dek-create io later pw file {dek} n back can_read h =
      reopened (create_key aead kdf json io pw file).1 (create_key-Locks io pw file n h)
    where
      reopened :
          (made : Option Bytes)
          → Locks pw dek made
          → (derive_dek aead kdf json false later pw made ≡ (ok dek, made))
            × (load_or_create_dek aead kdf json later pw made ≡ (ok dek, made))
      reopened made l =
          let opened_now =
            ap (λ (r : Result KeyErr Bytes). (r, some (json.encode l.envelope)))
              (open_envelope-Locks pw l.envelope back l.unwraps) in
          rw (l.on_file, can_read) (unfold read_file read_key load_key in (opened_now, opened_now))

  -- `loadOrCreateDEK` keeps a key file that it can read, whatever the password; one that is there and
  -- that it cannot read it replaces by one for a new key.
  pub load_or_create_dek-file :
      (io : KeyIo) (pw b : Bytes) {e : Envelope} {dek : Bytes}
      → new_envelope aead kdf io.random pw ≡ ok (e, dek)
      → io.writing ≡ whole_write
      → let out = load_or_create_dek aead kdf json io pw (some b) in
        (io.readable ≡ true → out.1 ≡ some b)
        × (io.readable ≡ false → out ≡ (ok dek, some (json.encode e)))
  unfolding load_or_create_dek
  load_or_create_dek-file io pw b {e} {dek} made can_write = (
    λ can_read. rw can_read (unfold read_file load_key in refl),
    λ fails. rw fails (
        unfold read_file load_key create_key in
        rw made (unfold saved in rw can_write (unfold write_file written_key in refl))),
  )
