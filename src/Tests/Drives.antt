-- ===== src/Tests/Drives.antt =====
-- The drive, and the component over it, at concrete inputs.
use mykeep_foundry.Tests.{quiet, notes_db, nonce12, key32, tagging, differ}
use mykeep_foundry.Prelude.{
  Bool, Bytes, List, [], ap, arith, false, none, ok, refl, some, sym, true, ◌∷◌, ◌≡◌, ◌⊎◌,
}
use mykeep_foundry.Prelude.Int.{u64}
use mykeep_foundry.Tests.Runs.{storing}
use mykeep_foundry.Tests.Planes.{local}
use mykeep_foundry.Tests.Market.{market}
use mykeep_foundry.Tests.Invocation.{plain}
use mykeep_foundry.Tests.Egress.{open_net}
use mykeep_foundry.Tests.Catalog.{mirror}
use mykeep_foundry.Store.Persist.Invariant.{HoldsAt, Lost, Lost-none}
use mykeep_foundry.Store.Persist.Unhindered.{Works, AtRest, Flushed}
use mykeep_foundry.Store.Persist.Flush.{reseal-Holds}
use mykeep_foundry.Store.Persist.{World, start, reseal, change, write_step, Reach}
use mykeep_foundry.Engine.{Frame}
use mykeep_foundry.Component.Lifecycle.{Unlocks, unlock-Unlocks, unlock-lock}
use mykeep_foundry.Component.{Setup, Machine, Parts, Component, Unlocking, server_of, unlock, lock}
use mykeep_foundry.Store.State.{Db, empty_db, mark_dirty}
use mykeep_foundry.Store.Open.Releases.{Opens, open_store-Opens}
use mykeep_foundry.Store.Open.{Drive, Opening, open_store, Flushing}
use mykeep_foundry.Store.Files.Whole.{Good, atomic_write-Good}
use mykeep_foundry.Store.Files.{SysCall, rename_call, System, atomic_write}

-- The file is synchronized, and then the rename fails.
abbrev unrenamed : SysCall → Bool
unrenamed rename_call = true
unrenamed _ = false

abbrev system : System
system = record { temp = ".tmp"; fails = unrenamed; torn = 1 }

atomic_write-Good_example :
    Good system "db" (1 ∷ 2 ∷ []) [] (atomic_write system "db" (1 ∷ 2 ∷ []) [])
atomic_write-Good_example = atomic_write-Good system "db" (1 ∷ 2 ∷ []) [] (differ ".tmp" "db" refl)

abbrev pub healthy : Opening
healthy = record {
  lock_file = true;
  driver = true;
  connects = true;
  readable = true;
  migrates = true;
}

-- A database is written as its message counter, and one without messages read back from it.
abbrev counter_of : Db → Bytes
counter_of db = db.sequence ∷ []

abbrev empty_drive : Drive
empty_drive = record { blob = none; locked = false }

open_store-Opens_example :
    let out = open_store tagging (λ b. some empty_db) healthy key32 empty_drive in
    Opens tagging (λ b. some empty_db) key32 empty_drive out.0 out.1
open_store-Opens_example = open_store-Opens tagging (λ b. some empty_db) healthy key32 empty_drive

-- A store that has had one write, before any flush.
abbrev pub dirtied : World
dirtied = change tagging counter_of quiet notes_db (start empty_db key32 none)

dirtying : Reach tagging counter_of [] (start empty_db key32 none) dirtied
unfolding start
dirtying = Reach.next Reach.here (write_step quiet notes_db (omega arith))

resting : AtRest tagging counter_of dirtied
unfolding change mark_dirty start
resting = record { still_open = refl; out = λ t. refl; key_length = refl }

flushing-Works : Works tagging counter_of true (some nonce12) true
flushing-Works = record {
  nonce = nonce12;
  read = refl;
  whole = refl;
  serializes = refl;
  writes = refl;
}

reseal-Holds_example :
    let u = reseal tagging counter_of true (some nonce12) true 1 dirtied in
    Flushed tagging counter_of dirtied u
    × ((dirtied.store.write_gen ≡ 0) ⊎ HoldsAt tagging counter_of key32 [] u.disk dirtied.store.db)
unfolding change start
reseal-Holds_example =
    reseal-Holds tagging counter_of key32 [] empty_db none dirtied true (some nonce12) true 1
      dirtying (λ h. cc) resting flushing-Works

abbrev pub flushing_well : Flushing
flushing_well = record { works = true; random = some nonce12; lands = true; shuts = true }

-- What is read back is the one database of these inputs.
abbrev pub machine : Machine (List Frame)
machine = record {
  aead = tagging;
  serialize = counter_of;
  deserialize = λ b. some notes_db;
  coding = market.coding;
  ed25519 = market.ed25519;
  codec = plain;
  net = open_net;
  vm = storing;
  web = mirror;
  wire = local;
  rounds = 3;
}

abbrev pub starting : Unlocking
starting = record {
  opening = healthy;
  engine = true;
  flushing = flushing_well;
  fresh_use = 7 ∷ 8 ∷ [];
  fresh_control = 9 ∷ [];
}

abbrev pub suite : Setup
suite = record {
  data_dir = "keep";
  lan = false;
  agent_token = [];
  human_token = [];
  human_session = 3 ∷ [];
  cookie_name = "fdy_session";
  registry_keys = [];
  market_url = [];
  vault_filler = none;
}

abbrev locked_component : Component (List Frame)
locked_component = record { setup = suite; parts = none }

-- The engine does not start.
unlock-Unlocks_example :
    Unlocks machine
      (record starting { engine = false })
      key32
      locked_component
      empty_drive
      (unlock machine (record starting { engine = false }) key32 locked_component empty_drive)
unlock-Unlocks_example =
    unlock-Unlocks machine (record starting { engine = false }) key32 locked_component empty_drive

abbrev pub dirtied_parts : Parts (List Frame)
dirtied_parts = record { world = dirtied; srv = server_of machine starting suite; client = none }

abbrev pub dirtied_component : Component (List Frame)
dirtied_component = record { setup = suite; parts = some dirtied_parts }

abbrev held_drive : Drive
held_drive = record { blob = none; locked = true }

unlock-lock_example :
    let (_, (after, left)) = lock machine flushing_well dirtied_component held_drive in
    (again : Parts (List Frame)) × (unlock machine starting key32 after left
      ≡ (ok tt, (record dirtied_component { parts = some again }, record left { locked = true })))
    × Lost [] again.world.store.db dirtied.store.db
unfolding change mark_dirty start u64
unlock-lock_example =
    unlock-lock machine starting flushing_well key32 [] dirtied_component dirtied_parts held_drive
      empty_db none refl refl dirtying (λ h. cc) resting flushing-Works (λ h. ground arith)
      (record {
        lock_file = refl;
        driver = refl;
        connects = refl;
        readable = refl;
        migrates = refl;
      })
      refl (λ b lost. ap some (sym (Lost-none lost)))
