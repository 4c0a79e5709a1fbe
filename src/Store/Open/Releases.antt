-- ===== src/Store/Open/Releases.antt =====
-- The lock of the drive.
use mykeep_foundry.Store.Open.{unsealed, deserialized, contents_of}
use mykeep_foundry.Store.Open.{
  load, locked_open, Drive, Opening, OpenErr, acquire_lock, release, open_store, no_lock_file,
  already_running, Flushing, close_store,
}
use mykeep_foundry.Store.Persist.{World, start}
use mykeep_foundry.Store.Open.{hard_close, flushed_for_close}
use mykeep_foundry.Prelude.{
  Bool, Bool-cases, Bytes, Option, Result, ap, arith, eqb, err, false, inl, inr, length, none, not,
  ok, refl, some, subst, sym, true, ◌||◌, ◌≡◌, ◌⊎◌,
}
use mykeep_foundry.Store.Persist.Flush.{reseal-start}
use mykeep_foundry.Store.State.{Db, empty_db}
use mykeep_foundry.Store.Persist.{World, start}
use mykeep_foundry.Secret.{Aead, dek_len, SecretErr, open_blob}
use mykeep_foundry.Store.Open.{load, locked_open}

-- How an `Open` ends: with an error, and the drive as it was; or with the lock, which was free, and
-- the same file.
pub record Took (d after : Drive) : Type 0 where
  pub was_free : d.locked ≡ false
  pub taken_now : after.locked ≡ true
  pub same_blob : after.blob ≡ d.blob

module _ (aead : Aead) (deserialize : Bytes → Option Db) where
  -- What a file under a key holds: where there is none, an empty database; else the database that the
  -- driver makes of its opened seal.
  unfoldable pub Contents : Bytes → Option Bytes → Db → Type 0
  Contents dek none db = db ≡ empty_db
  Contents dek (some blob) db =
      (plain : Bytes) × (open_blob aead dek blob ≡ ok plain) × (deserialize plain ≡ some db)

  unsealed-ok :
      (dek blob : Bytes) (db : Db) (r : Result SecretErr Bytes)
      → open_blob aead dek blob ≡ r
      → unsealed aead deserialize r ≡ ok db
      → Contents dek (some blob) db
  unfolding unsealed deserialized Contents
  unsealed-ok dek blob db (err e) o h = cc
  unsealed-ok dek blob db (ok plain) o h = (plain, o, ground arith)

  contents_of-Contents :
      (readable : Bool) (dek : Bytes) (blob : Option Bytes) (db : Db)
      → contents_of aead deserialize readable dek blob ≡ ok db
      → Contents dek blob db
  unfolding contents_of
  contents_of-Contents false dek blob db h = cc
  contents_of-Contents true dek none db h = unfold Contents in ground arith
  contents_of-Contents true dek (some blob) db h = unsealed-ok dek blob db _ refl h

  unfoldable pub Opens : Bytes → Drive → Result OpenErr World → Drive → Type 0
  Opens dek d (ok w) after =
      Took d after × ((db : Db) × Contents dek d.blob db × (w ≡ start db dek d.blob))
  Opens dek d (err e) after = after ≡ d

  released : (d : Drive) → d.locked ≡ false → release (record d { locked = true }) ≡ d
  released d h = ap (λ (b : Bool). record d { locked = b }) (sym h)

  load-Opens :
      (o : Opening) (dek : Bytes) (r : Result OpenErr Db) (d : Drive)
      → d.locked ≡ false
      → ((db : Db) → r ≡ ok db → Contents dek d.blob db)
      → let out = load aead deserialize o dek r (record d { locked = true }) in
        Opens dek d out.0 out.1
  unfolding load Opens
  load-Opens o dek (err e) d h has = released d h
  load-Opens o dek (ok db) d h has = elim (Bool-cases o.migrates) [
    | inl e ↦
        rw e (record { was_free = h; taken_now = refl; same_blob = refl }, (db, has db refl, refl))
    | inr e ↦ rw e (released d h)
  ]

  locked_open-Opens :
      (o : Opening) (dek : Bytes) (d : Drive)
      → d.locked ≡ false
      → let out = locked_open aead deserialize o dek (ok tt, record d { locked = true }) in
        Opens dek d out.0 out.1
  unfolding locked_open
  locked_open-Opens o dek d h = elim (Bool-cases (not o.driver || not o.connects)) [
    | inl e ↦ rw e (unfold Opens in released d h)
    | inr e ↦ rw e (load-Opens o dek _ d h (contents_of-Contents o.readable dek d.blob))
  ]

  acquire_lock-cases :
      (lock_file : Bool) (d : Drive)
      → ((e : OpenErr) × (acquire_lock lock_file d ≡ (err e, d)))
        ⊎ ((d.locked ≡ false) × (acquire_lock lock_file d ≡ (ok tt, record d { locked = true })))
  unfolding acquire_lock
  acquire_lock-cases false d = inl (no_lock_file, refl)
  acquire_lock-cases true d = elim (Bool-cases d.locked) [
    | inl held ↦ inl (already_running, ground arith)
    | inr free ↦ inr (free, ground arith)
  ]

  abbrev Then : Opening → Bytes → Drive → Result OpenErr (Unit {0}) × Drive → Type 0
  Then o dek d l =
      Opens dek d (locked_open aead deserialize o dek l).0 (locked_open aead deserialize o dek l).1

  -- An `Open` that fails leaves the drive as it was, the lock included, whatever it failed on; one that
  -- succeeds takes the lock, which nobody held, leaves the file, and starts with the store clean over what
  -- the file holds under the key, or over an empty database where there is no file.
  pub open_store-Opens :
      (o : Opening) (dek : Bytes) (d : Drive)
      → let out = open_store aead deserialize o dek d in Opens dek d out.0 out.1
  unfolding open_store
  open_store-Opens o dek d = elim (Bool-cases (eqb (length dek) dek_len)) [
    | inr e ↦ rw e (unfold Opens in refl)
    | inl e ↦ rw e (elim (acquire_lock-cases o.lock_file d) [
      | inl (x, same) ↦ subst (Then o dek d) (sym same) (unfold locked_open Opens in refl)
      | inr (free, same) ↦ subst (Then o dek d) (sym same) (locked_open-Opens o dek d free)
    ])
  ]

-- A store in which nothing was written closes with the file as it was.
pub close_store-start :
    (aead : Aead) (serialize : Db → Bytes) (f : Flushing) (db : Db) (dek : Bytes) (d : Drive)
    → (close_store aead serialize f (start db dek d.blob) d).1.1 ≡ release d
unfolding close_store hard_close flushed_for_close start
close_store-start aead serialize f db dek d =
    ap (λ (disk : Option Bytes). record { blob = disk; locked = false })
      (reseal-start aead serialize f.works f.random f.lands 0 db dek d.blob)
