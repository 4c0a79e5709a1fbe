-- ===== src/Store/Open/Kept.antt =====
-- What a closed store leaves for the next `Open`.
use mykeep_foundry.Store.Open.{
  load, locked_open, contents_of, unsealed, deserialized, hard_close, flushed_for_close,
}
use mykeep_foundry.Prelude.{
  Bytes, List, Option, String, ap, arith, false, inl, inr, length, none, ok, refl, some, subst, sym,
  true, ◌≡◌, ◌≢◌,
}
use mykeep_foundry.Store.State.{Db}
use mykeep_foundry.Store.Persist.Invariant.{Holds, Lost}
use mykeep_foundry.Store.Persist.Unhindered.{Works, AtRest}
use mykeep_foundry.Store.Persist.Flush.{reseal-Holds}
use mykeep_foundry.Store.Persist.{shut, World, start, Reach, reseal}
use mykeep_foundry.Secret.{Aead, dek_len}
use mykeep_foundry.Store.Open.{
  load, locked_open, contents_of, unsealed, deserialized, hard_close, flushed_for_close, Drive,
  Opening, acquire_lock, open_store, Flushing, close_store,
}

-- Nothing that an `Open` calls fails.
pub record Healthy (o : Opening) : Type 0 where
  pub lock_file : o.lock_file ≡ true
  pub driver : o.driver ≡ true
  pub connects : o.connects ≡ true
  pub readable : o.readable ≡ true
  pub migrates : o.migrates ≡ true

module _ (aead : Aead) (serialize : Db → Bytes) (deserialize : Bytes → Option Db) where
  contents_of-Holds :
      (key : Bytes) (blob : Option Bytes) (db : Db)
      → deserialize (serialize db) ≡ some db
      → Holds aead serialize key blob db
      → contents_of aead deserialize true key blob ≡ ok db
  unfolding contents_of unsealed deserialized
  contents_of-Holds key none db back h = absurd h
  contents_of-Holds key (some blob) db back h = rw h (rw back refl)

  open_store-Holds :
      (o : Opening) (key : Bytes) (d : Drive) (db : Db)
      → Healthy o
      → length key ≡ dek_len
      → d.locked ≡ false
      → deserialize (serialize db) ≡ some db
      → Holds aead serialize key d.blob db
      → open_store aead deserialize o key d ≡ (ok (start db key d.blob), record d { locked = true })
  unfolding open_store acquire_lock locked_open load
  open_store-Holds o key d db well len free back h =
      rw (well.lock_file, well.driver, well.connects, well.readable, well.migrates)
        (ground (arith, contents_of-Holds key d.blob db back h))

  close_store-AtRest :
      (f : Flushing) (w : World) (d : Drive)
      → AtRest aead serialize w
      → (close_store aead serialize f w d).1
        ≡ hard_close aead serialize (flushed_for_close aead serialize f w) d
  unfolding close_store
  close_store-AtRest f w d q = rw q.still_open refl

  left_behind :
      (f : Flushing) (w : World) (d : Drive)
      → AtRest aead serialize w
      → (close_store aead serialize f w d).1.1 ≡ record {
        blob = (reseal aead serialize f.works f.random f.lands 0 w).disk;
        locked = false;
      }
  unfolding hard_close flushed_for_close
  left_behind f w d q = ap (λ (x : World × Drive). x.1) (close_store-AtRest f w d q)

  -- What was written is there after a restart: close a store in which calls and flushes were interleaved
  -- in any way, with a flush that nothing hinders and no other goroutine in it, and open the drive again
  -- under the same key with nothing failing, and the database is as it was in memory, up to rows of tools
  -- in `names`, those of which a `DeleteTool` was cut short: they may be back. (Something was written, and
  -- the driver reads back what it serializes of this database.)
  pub open_store-close_store :
      (key : Bytes) (names : List String) (db : Db) (disk : Option Bytes) (w : World) (d : Drive)
      (f : Flushing) (o : Opening)
      → length key ≡ dek_len
      → Reach aead serialize names (start db key disk) w
      → w.closing ≢ shut
      → AtRest aead serialize w
      → Works aead serialize f.works f.random f.lands
      → w.store.write_gen ≢ 0
      → Healthy o
      → ((b : Db) → Lost names b w.store.db → deserialize (serialize b) ≡ some b)
      → let left = (close_store aead serialize f w d).1.1 in
        (b : Db) × Lost names b w.store.db
        × (open_store aead deserialize o key left
            ≡ (ok (start b key left.blob), record left { locked = true }))
  open_store-close_store key names db disk w d f o len r still_open q good written well back =
      let e = left_behind f w d q in
      let (_, held) =
        reseal-Holds aead serialize key names db disk w f.works f.random f.lands 0 r still_open q
          good in
      elim held [
        | inl none_written ↦ absurd (written none_written)
        | inr (b, lost, h) ↦ (
          b,
          lost,
          subst
              (λ (left : Drive).
                open_store aead deserialize o key left
                ≡ (ok (start b key left.blob), record left { locked = true }))
              (sym e) (open_store-Holds o key _ b well len refl (back b lost) h),
        )
      ]
