-- ===== src/Store/Open.antt =====
-- internal/store/store.go, `Open`, `Close` and `hardClose`; internal/store/lock_unix.go: the store
-- against the drive. SQLite's serialization is a parameter; the schema's tables are those of `Db`.
pub mod Releases
pub mod Kept
use mykeep_foundry.Prelude.{
  Bool, Bytes, Option, Result, eqb, err, false, if◌then◌else◌, length, none, not, ok, some, true,
  ◌||◌,
}
use mykeep_foundry.Store.State.{Db, empty_db}
use mykeep_foundry.Store.Persist.{FlushErr, World, start, zeroed, reseal}
use mykeep_foundry.Secret.{Aead, SecretErr, dek_len, open_blob}

-- What one process can see of the drive: the file of the store, and whether some process holds the
-- lock.
pub record Drive : Type 0 where
  pub blob : Option Bytes
  pub locked : Bool

-- What the machine decides for an `Open`: which of its calls fail. `readable` is that of the file.
pub record Opening : Type 0 where
  pub lock_file : Bool
  pub driver : Bool
  pub connects : Bool
  pub readable : Bool
  pub migrates : Bool

pub data OpenErr : Type 0 where
  bad_key_length no_lock_file already_running no_driver unreadable not_a_database not_migrated :
      OpenErr
  of_seal : SecretErr → OpenErr

-- `acquireLock`
unfoldable pub acquire_lock : Bool → Drive → Result OpenErr (Unit {0}) × Drive
acquire_lock lock_file d =
    if not lock_file
    then (err no_lock_file, d)
    else if d.locked
    then (err already_running, d)
    else (ok tt, record d { locked = true })

-- `release`
abbrev pub release : Drive → Drive
release d = record d { locked = false }

module _ (aead : Aead) (deserialize : Bytes → Option Db) where
  deserialized : Option Db → Result OpenErr Db
  deserialized none = err not_a_database
  deserialized (some db) = ok db

  unsealed : Result SecretErr Bytes → Result OpenErr Db
  unfolding deserialized
  unsealed (err e) = err (of_seal e)
  unsealed (ok plain) = deserialized (deserialize plain)

  -- What `Open` reads: the database of the file, or an empty one where there is no file.
  contents_of : Bool → Bytes → Option Bytes → Result OpenErr Db
  unfolding unsealed
  contents_of false dek blob = err unreadable
  contents_of true dek none = ok empty_db
  contents_of true dek (some blob) = unsealed (open_blob aead dek blob)

  -- `Open` once the connection stands: `hardClose` on every error.
  load : Opening → Bytes → Result OpenErr Db → Drive → Result OpenErr World × Drive
  load o dek (err e) d = (err e, release d)
  load o dek (ok db) d =
      if not o.migrates then (err not_migrated, release d) else (ok (start db dek d.blob), d)

  locked_open : Opening → Bytes → Result OpenErr (Unit {0}) × Drive → Result OpenErr World × Drive
  unfolding load contents_of
  locked_open o dek (err e, d) = (err e, d)
  locked_open o dek (ok _, d) =
      if not o.driver || not o.connects
      then (err no_driver, release d)
      else load o dek (contents_of o.readable dek d.blob) d

  -- `Open`
  unfoldable pub open_store : Opening → Bytes → Drive → Result OpenErr World × Drive
  unfolding locked_open
  open_store o dek d =
      if not (eqb (length dek) dek_len)
      then (err bad_key_length, d)
      else locked_open o dek (acquire_lock o.lock_file d)

-- What the machine decides for a flush: whether the driver serializes, the nonce that is read, and
-- whether the file is written.
pub record Flushing : Type 0 where
  pub works : Bool
  pub random : Option Bytes
  pub lands : Bool
  pub shuts : Bool

-- What `Close` returns: the flush's error, else the driver's.
pub data CloseErr : Type 0 where
  not_flushed : FlushErr → CloseErr
  not_closed : CloseErr

module _ (aead : Aead) (serialize : Db → Bytes) where
  -- What a `reseal` returns, alone: the error that it meets itself.
  flush_error : Flushing → World → Option FlushErr
  unfolding reseal
  flush_error f w =
      (reseal aead serialize f.works f.random f.lands 0
        (record w { last_flush_err = none })).last_flush_err

  close_error : Option FlushErr → Bool → Option CloseErr
  close_error (some e) shuts = some (not_flushed e)
  close_error none shuts = if shuts then none else some not_closed

  -- `hardClose`, of the key and the drive: the file is what the flushes have left, the lock goes.
  hard_close : World → Drive → World × Drive
  unfolding zeroed
  hard_close w d = (record w { dek = zeroed w.dek }, release (record d { blob = w.disk }))

  flushed_for_close : Flushing → World → World
  unfolding reseal
  flushed_for_close f w =
      let u = reseal aead serialize f.works f.random f.lands 0 w in
      record u { store = record u.store { closed = true; timer = none } }

  -- `Close`, with no other goroutine in the store.
  unfoldable pub close_store : Flushing → World → Drive → Option CloseErr × (World × Drive)
  unfolding flush_error close_error hard_close flushed_for_close
  close_store f w d =
      if w.store.closed
      then (none, (w, d))
      else (close_error (flush_error f w) f.shuts, hard_close (flushed_for_close f w) d)
