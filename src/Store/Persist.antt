-- ===== src/Store/Persist.antt =====
-- internal/store/store.go, `reseal` and `Close`: how the database in memory reaches the disk. Any
-- number of goroutines may stand in `reseal` (the timer's, `Flush`, `Close`); each is at a phase
-- between its three critical sections, and the sections of all of them interleave freely.
pub mod Invariant
pub mod Sections
pub mod Calls
pub mod Durable
pub mod Unhindered
pub mod Flush
pub mod Race
use mykeep_foundry.Prelude.{
  Bool, Bytes, In, List, Option, Result, String, eqb, err, false, if◌then◌else◌, leb, length, ltb,
  map, none, not, ok, some, suc, true, ℕ, ◌<◌, ◌||◌, ◌≡◌,
}
use mykeep_foundry.Store.Tools.{delete_tool}
use mykeep_foundry.Store.State.{Db, Env, Store, opened, mark_dirty, tools_delete, grants_delete}
use mykeep_foundry.Secret.{Aead, SecretErr, seal}
use mykeep_foundry.Prelude.Int.{u64_mod}

pub data FlushErr : Type 0 where
  serialize_failed write_failed : FlushErr
  seal_failed : SecretErr → FlushErr

-- Where a goroutine stands in `reseal`: outside it; after its snapshot, before `flushMu`; after
-- `flushMu`, before it reports.
pub data Phase : Type 0 where
  idle : Phase
  taken : ℕ → Bytes → Phase
  landed : ℕ → Option FlushErr → Phase

-- Where `Close` stands.
pub data Closing : Type 0 where
  running stopped resealing marked shut : Closing

-- The store, the fields that `reseal` keeps beside it, the file and the goroutines.
pub record World : Type 0 where
  pub store : Store
  pub persisted_gen : ℕ
  pub failed_gen : ℕ
  pub last_flush_err : Option FlushErr
  pub dek : Bytes
  pub disk : Option Bytes
  pub phase : ℕ → Phase
  pub closing : Closing

unfoldable pub set_phase : (ℕ → Phase) → ℕ → Phase → ℕ → Phase
set_phase f t p u = if eqb u t then p else f u

-- As `Open` leaves it, over the database that it read or an empty one.
unfoldable pub start : Db → Bytes → Option Bytes → World
start db dek disk = record {
  store = opened db;
  persisted_gen = 0;
  failed_gen = 0;
  last_flush_err = none;
  dek = dek;
  disk = disk;
  phase = λ t. idle;
  closing = running;
}

-- `hardClose` zeroes the key in place.
unfoldable pub zeroed : Bytes → Bytes
zeroed = map (λ b. 0)

module _ (aead : Aead) (serialize : Db → Bytes) where
  -- The first section of `reseal`, under `s.mu`; `works` says whether the driver serializes.
  unfoldable pub reseal_begin : Bool → ℕ → World → World
  reseal_begin works t w =
      if not w.store.dirty || w.store.closed
      then w
      else if works
      then record w {
        store = record w.store { dirty = false };
        phase = set_phase w.phase t (taken w.store.write_gen (serialize w.store.db));
      }
      else record w { last_flush_err = some serialize_failed }

  -- `secret.Seal` and `atomicWrite`; a write that fails leaves the file as it was.
  sealed : Option Bytes → Bool → Bytes → Bytes → Result FlushErr Bytes
  sealed random lands dek raw = elim (seal aead random dek raw) [
    | ok blob ↦ if lands then ok blob else err write_failed
    | err e ↦ err (seal_failed e)
  ]

  store_blob : ℕ → ℕ → Result FlushErr Bytes → World → World
  store_blob t gen (ok blob) w = record w {
    persisted_gen = gen;
    disk = some blob;
    phase = set_phase w.phase t (landed gen none);
  }
  store_blob t gen (err e) w = record w { phase = set_phase w.phase t (landed gen (some e)) }

  pub write_phase : Option Bytes → Bool → ℕ → Phase → World → World
  unfolding sealed store_blob
  write_phase random lands t (taken gen raw) w =
      if leb gen w.persisted_gen
      then record w { phase = set_phase w.phase t idle }
      else store_blob t gen (sealed random lands w.dek raw) w
  write_phase random lands t _ w = w

  -- The second section, under `flushMu`.
  unfoldable pub reseal_write : Option Bytes → Bool → ℕ → World → World
  unfolding write_phase
  reseal_write random lands t w = write_phase random lands t (w.phase t) w

  end_phase : ℕ → Phase → World → World
  end_phase t (landed gen (some e)) w = record w {
    store = record w.store { dirty = true };
    last_flush_err = some e;
    failed_gen = if ltb w.failed_gen gen then gen else w.failed_gen;
    phase = set_phase w.phase t idle;
  }
  end_phase t (landed gen none) w = record w {
    last_flush_err = if leb w.failed_gen gen then none else w.last_flush_err;
    phase = set_phase w.phase t idle;
  }
  end_phase t _ w = w

  -- The third section, under `s.mu`.
  unfoldable pub reseal_end : ℕ → World → World
  unfolding end_phase
  reseal_end t w = end_phase t (w.phase t) w

  -- A `reseal` that no other goroutine interrupts, as `Flush` makes it in a quiet program.
  unfoldable pub reseal : Bool → Option Bytes → Bool → ℕ → World → World
  unfolding reseal_begin reseal_write reseal_end
  reseal works random lands t w =
      reseal_end t (reseal_write random lands t (reseal_begin works t w))

  -- A call of the store that changes the database and marks it dirty: all but a `DeleteTool` that is cut
  -- short.
  unfoldable pub change : Env → Db → World → World
  unfolding mark_dirty
  change env db w = record w { store = mark_dirty env (record w.store { db = db }) }

  -- A `DeleteTool` that its second statement cuts short: the row of the tool is gone, and the store is
  -- not marked dirty.
  unfoldable pub cut_delete : Env → String → World → World
  unfolding delete_tool
  cut_delete env name w = record w { store = (delete_tool env name w.store).1 }

  -- `io.ReadFull` yields a whole nonce or an error.
  abbrev pub IsFull : Option Bytes → Type 0
  IsFull none = Unit {0}
  IsFull (some nonce) = length nonce ≡ aead.nonce_size

  -- One critical section of one goroutine. Goroutine 0 is the one in `Close`; `names` are the tools of
  -- which a `DeleteTool` may be cut short.
  pub data Step (names : List String) (w : World) : World → Type 0 where
    write_step :
        (env : Env) (db : Db) → suc w.store.write_gen < u64_mod → Step names w (change env db w)
    cut_step :
        (env : Env) (name : String)
        → In name names
        → env.fails tools_delete ≡ false
        → env.fails grants_delete ≡ true
        → Step names w (cut_delete env name w)
    begin_step :
        (works : Bool) (t : ℕ)
        → w.phase (suc t) ≡ idle
        → Step names w (reseal_begin works (suc t) w)
    seal_step :
        (random : Option Bytes) (lands : Bool) (t : ℕ)
        → IsFull random
        → Step names w (reseal_write random lands t w)
    end_step : (t : ℕ) → Step names w (reseal_end t w)
    stop_step : w.closing ≡ running → Step names w (record w { closing = stopped })
    close_reseal_step :
        (works : Bool)
        → w.closing ≡ stopped
        → Step names w (record (reseal_begin works 0 w) { closing = resealing })
    mark_step :
        w.closing ≡ resealing
        → w.phase 0 ≡ idle
        → Step names w (record w { store = record w.store { closed = true }; closing = marked })
    shut_step : w.closing ≡ marked → Step names w (record w { dek = zeroed w.dek; closing = shut })

  pub data Reach (names : List String) (w : World) : World → Type 0 where
    here : Reach names w w
    next : {u v : World} → Reach names w u → Step names u v → Reach names w v
