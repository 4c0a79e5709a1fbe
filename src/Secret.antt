-- ===== src/Secret.antt =====
-- internal/secret/secret.go: the seal of the database under the data encryption key, and the
-- password envelope of that key. AES-GCM, argon2id and the source of randomness are parameters.
use mykeep_foundry.Prelude.{
  Bytes, Option, Result, ap, arith, drop, drop-append, eqb, err, if◌then◌else◌, length,
  length-append, ltb, none, ok, some, take, take-append, ℕ, ◌++◌, ◌≡◌, ◌>>=◌, ◌>>◌,
}

-- What the code relies on of AES-GCM: opening under the same key and nonce undoes the seal.
pub record Aead : Type 0 where
  pub nonce_size : ℕ
  pub encrypt : Bytes → Bytes → Bytes → Bytes
  pub decrypt : Bytes → Bytes → Bytes → Option Bytes
  pub decrypt-encrypt :
      (key nonce text : Bytes) → decrypt key nonce (encrypt key nonce text) ≡ some text

pub data SecretErr : Type 0 where
  bad_dek no_random too_short wrong_password : SecretErr

abbrev pub dek_len : ℕ
dek_len = 32

abbrev pub salt_len : ℕ
salt_len = 16

-- `gcm`: the key must have 32 bytes.
check_key : Bytes → Result SecretErr (Unit {0})
check_key key = if eqb (length key) dek_len then ok tt else err bad_dek

-- What `io.ReadFull(rand.Reader, …)` yields: the bytes, or an error.
from_random : Option Bytes → Result SecretErr Bytes
from_random none = err no_random
from_random (some b) = ok b

from_gcm : Option Bytes → Result SecretErr Bytes
from_gcm none = err wrong_password
from_gcm (some b) = ok b

module _ (aead : Aead) where
  -- `Seal`; `random` is the nonce that it reads.
  unfoldable pub seal : Option Bytes → Bytes → Bytes → Result SecretErr Bytes
  unfolding check_key from_random
  seal random dek plain = do
    check_key dek
    nonce ← from_random random
    ok (nonce ++ aead.encrypt dek nonce plain)

  -- `Open`
  unfoldable pub open_blob : Bytes → Bytes → Result SecretErr Bytes
  unfolding check_key from_gcm
  open_blob dek blob = do
    check_key dek
    if ltb (length blob) aead.nonce_size
        then err too_short
        else from_gcm (aead.decrypt dek (take aead.nonce_size blob) (drop aead.nonce_size blob))

  -- What `Seal` made under a key with a full nonce, `Open` turns back into the text.
  pub open_blob-seal :
      (nonce dek plain : Bytes) {blob : Bytes}
      → length nonce ≡ aead.nonce_size
      → seal (some nonce) dek plain ≡ ok blob
      → open_blob dek blob ≡ ok plain
  unfolding seal open_blob
  open_blob-seal nonce dek plain {blob} n h = ground (
    arith,
    length-append nonce (aead.encrypt dek nonce plain),
    ap (λ (k : ℕ). take k (nonce ++ aead.encrypt dek nonce plain)) n,
    ap (λ (k : ℕ). drop k (nonce ++ aead.encrypt dek nonce plain)) n,
    take-append nonce (aead.encrypt dek nonce plain),
    drop-append nonce (aead.encrypt dek nonce plain),
    aead.decrypt-encrypt dek nonce plain,
  )

-- `Envelope`
pub record Envelope : Type 0 where
  pub version : ℕ
  pub salt : Bytes
  pub wrapped : Bytes

-- `argon2.IDKey(password, salt, argonTime, argonMemory, argonThreads, DEKLen)`
abbrev pub Kdf : Type 0
Kdf = Bytes → Bytes → Bytes

-- The three reads of randomness in `NewEnvelope`, in order.
pub record Randomness : Type 0 where
  pub salt : Option Bytes
  pub dek : Option Bytes
  pub nonce : Option Bytes

module _ (aead : Aead) (kdf : Kdf) where
  -- `NewEnvelope`
  unfoldable pub new_envelope : Randomness → Bytes → Result SecretErr (Envelope × Bytes)
  unfolding from_random
  new_envelope random password = do
    salt ← from_random random.salt
    dek ← from_random random.dek
    wrapped ← seal aead random.nonce (kdf password salt) dek
    ok (record { version = 1; salt = salt; wrapped = wrapped }, dek)

  -- `Envelope.Unwrap`
  unfoldable pub unwrap : Envelope → Bytes → Result SecretErr Bytes
  unwrap e password = open_blob aead (kdf password e.salt) e.wrapped

  new_envelope-ok :
      (random : Randomness) (password : Bytes) {e : Envelope} {dek : Bytes}
      → new_envelope random password ≡ ok (e, dek)
      → seal aead random.nonce (kdf password e.salt) dek ≡ ok e.wrapped
  unfolding new_envelope
  new_envelope-ok random password {e} {dek} h = ground arith

  -- The password that made an envelope unwraps the key that was minted with it.
  pub unwrap-new_envelope :
      (random : Randomness) (nonce password : Bytes) {e : Envelope} {dek : Bytes}
      → random.nonce ≡ some nonce
      → length nonce ≡ aead.nonce_size
      → new_envelope random password ≡ ok (e, dek)
      → unwrap e password ≡ ok dek
  unfolding new_envelope unwrap
  unwrap-new_envelope random nonce password {e} {dek} n len h =
      open_blob-seal aead nonce (kdf password e.salt) dek len
        (rw (← n) (new_envelope-ok random password h))
