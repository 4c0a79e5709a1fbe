-- ===== src/Component/Lifecycle.antt =====
-- Unlocking and locking, against the drive.
use mykeep_foundry.Component.{
  Machine, Parts, Component, ComponentErr, Unlocking, client_of, server_of, no_engine, of_open,
  unlock, lock, use_token_of, control_token_of,
}
use mykeep_foundry.Component.{assemble_parts, with_engine, unless_unlocked, close_parts, token_of}
use mykeep_foundry.Prelude.{
  Bool, Bytes, List, Option, Result, String, [], ap, err, false, length, none, ok, refl, some,
  subst, sym, true, ◌∙◌, ◌≡◌, ◌≢◌,
}
use mykeep_foundry.Store.Persist.Invariant.{Lost}
use mykeep_foundry.Store.Persist.Unhindered.{Works, AtRest}
use mykeep_foundry.Store.Open.Kept.{Healthy, open_store-close_store}
use mykeep_foundry.Secret.{dek_len}
use mykeep_foundry.Store.State.{Db, opened}
use mykeep_foundry.Store.Persist.{start, World, shut, Reach}
use mykeep_foundry.Store.Open.Releases.{Took, Opens, open_store-Opens, close_store-start, Contents}
use mykeep_foundry.Store.Open.{Drive, OpenErr, close_store, Flushing, open_store}

module _ {M : Type 0} (m : Machine M) where
  -- How an `Unlock` ends: with an error, and the component and the drive as they were; or already
  -- unlocked, with nothing changed; or with the lock of the drive, which was free, and the store clean
  -- over the same file.
  pub data Unlocks (un : Unlocking) (dek : Bytes) (c : Component M) (d : Drive)
      : Result ComponentErr (Unit {0}) × (Component M × Drive) → Type 0 where
    fails : (e : ComponentErr) → Unlocks un dek c d (err e, (c, d))
    already : (p : Parts M) → c.parts ≡ some p → Unlocks un dek c d (ok tt, (c, d))
    opens :
        (db : Db) (after : Drive)
        → c.parts ≡ none
        → Took d after
        → Contents m.aead m.deserialize dek d.blob db
        → Unlocks un dek c d (
          ok tt,
          (
            record c {
              parts = some (record {
                world = start db dek d.blob;
                srv = server_of m un c.setup;
                client = client_of c.setup;
              });
            },
            after,
          ),
        )

  unopened :
      (un : Unlocking) (dek : Bytes) (d after : Drive) (db : Db)
      → Took d after
      → (close_store m.aead m.serialize un.flushing (start db dek d.blob) after).1.1 ≡ d
  unopened un dek d after db took =
      subst
        (λ (blob : Option Bytes).
          (close_store m.aead m.serialize un.flushing (start db dek blob) after).1.1 ≡ d)
        took.same_blob
        (close_store-start m.aead m.serialize un.flushing db dek after
          ∙ ap (λ (b : Option Bytes). record { blob = b; locked = false }) took.same_blob
          ∙ ap (λ (l : Bool). record { blob = d.blob; locked = l }) (sym took.was_free))

  with_engine-Unlocks :
      (starts : Bool) (un : Unlocking) (dek : Bytes) (c : Component M) (d after : Drive) (db : Db)
      → c.parts ≡ none
      → Took d after
      → Contents m.aead m.deserialize dek d.blob db
      → Unlocks un dek c d (with_engine starts m un c (start db dek d.blob) after)
  unfolding with_engine
  with_engine-Unlocks true un dek c d after db locked took has = opens db after locked took has
  with_engine-Unlocks false un dek c d after db locked took has =
      subst (λ (x : Drive). Unlocks un dek c d (err no_engine, (c, x)))
        (sym (unopened un dek d after db took)) (fails no_engine)

  assemble_parts-Unlocks :
      (un : Unlocking) (dek : Bytes) (c : Component M) (d : Drive) (r : Result OpenErr World)
      (after : Drive)
      → c.parts ≡ none
      → Opens m.aead m.deserialize dek d r after
      → Unlocks un dek c d (assemble_parts m un c (r, after))
  unfolding assemble_parts Opens
  assemble_parts-Unlocks un dek c d (err e) after locked same =
      subst (λ (x : Drive). Unlocks un dek c d (err (of_open e), (c, x))) (sym same)
        (fails (of_open e))
  assemble_parts-Unlocks un dek c d (ok w) after locked (took, (db, has, same)) =
      subst (λ (x : World). Unlocks un dek c d (with_engine un.engine m un c x after)) (sym same)
        (with_engine-Unlocks un.engine un dek c d after db locked took has)

  unless_unlocked-Unlocks :
      (un : Unlocking) (dek : Bytes) (c : Component M) (d : Drive) (ps : Option (Parts M))
      (opened_now : Result ComponentErr (Unit {0}) × (Component M × Drive))
      → c.parts ≡ ps
      → (c.parts ≡ none → Unlocks un dek c d opened_now)
      → Unlocks un dek c d (unless_unlocked ps c d opened_now)
  unfolding unless_unlocked
  unless_unlocked-Unlocks un dek c d (some p) opened_now e h = already p e
  unless_unlocked-Unlocks un dek c d none opened_now e h = h e

  -- An `Unlock` that fails, at the store or at the engine, leaves the component and the drive as they
  -- were; one of an unlocked component changes nothing; any other takes the lock, which nobody held, and
  -- puts the server over the store, which is clean over the database that the file holds under the key, or
  -- over an empty one where there is no file.
  pub unlock-Unlocks :
      (un : Unlocking) (dek : Bytes) (c : Component M) (d : Drive)
      → Unlocks un dek c d (unlock m un dek c d)
  unfolding unlock
  unlock-Unlocks un dek c d = unless_unlocked-Unlocks un dek c d c.parts _ refl λ e.
      assemble_parts-Unlocks un dek c d _ _ e
        (open_store-Opens m.aead m.deserialize un.opening dek d)

  -- After a `Lock`, whatever its flush did, the component shows no token, and a second `Lock` changes
  -- nothing and returns no error.
  pub lock-twice :
      (f g : Flushing) (c : Component M) (d : Drive)
      → let (e, (after, left)) = lock m f c d in
        (lock m g after left ≡ (none, (after, left)))
        × (use_token_of after ≡ [])
        × (control_token_of after ≡ [])
  unfolding lock close_parts use_token_of control_token_of token_of
  lock-twice f g c d = (refl, refl, refl)

  lock-parts :
      (f : Flushing) (c : Component M) (p : Parts M) (d : Drive)
      → c.parts ≡ some p
      → (lock m f c d).1
        ≡ (record c { parts = none }, (close_store m.aead m.serialize f p.world d).1.1)
  unfolding lock close_parts
  lock-parts f c p d e =
      ap (λ (ps : Option (Parts M)). (record c { parts = none }, (close_parts m f ps d).1)) e

  unlock-opened :
      (un : Unlocking) (key : Bytes) (c : Component M) (w : World) (left after : Drive)
      → open_store m.aead m.deserialize un.opening key left ≡ (ok w, after)
      → un.engine ≡ true
      → unlock m un key (record c { parts = none }) left ≡ (
        ok tt,
        (
          record c {
            parts =
                some
                  (record { world = w; srv = server_of m un c.setup; client = client_of c.setup });
          },
          after,
        ),
      )
  unfolding unlock unless_unlocked assemble_parts with_engine
  unlock-opened un key c w left after opened engine = rw (opened, engine) refl

  -- What was written while the component was unlocked is there when it is unlocked again: lock a
  -- component in which calls and flushes were interleaved in any way, with a flush that nothing hinders
  -- and no other goroutine in the store, and unlock it with the same key and nothing failing, and the
  -- store has the database that it had, up to rows of tools in `names`, those of which a `DeleteTool` was
  -- cut short: they may be back. (Something was written, and the driver reads back what it serializes of
  -- this database.)
  pub unlock-lock :
      (un : Unlocking) (f : Flushing) (key : Bytes) (names : List String) (c : Component M)
      (p : Parts M) (d : Drive) (db : Db) (disk : Option Bytes)
      → c.parts ≡ some p
      → length key ≡ dek_len
      → Reach m.aead m.serialize names (start db key disk) p.world
      → p.world.closing ≢ shut
      → AtRest m.aead m.serialize p.world
      → Works m.aead m.serialize f.works f.random f.lands
      → p.world.store.write_gen ≢ 0
      → Healthy un.opening
      → un.engine ≡ true
      → ((b : Db) → Lost names b p.world.store.db → m.deserialize (m.serialize b) ≡ some b)
      → let (_, (after, left)) = lock m f c d in
        (again : Parts M) × (unlock m un key after left
          ≡ (ok tt, (record c { parts = some again }, record left { locked = true })))
        × Lost names again.world.store.db p.world.store.db
  unlock-lock un f key names c p d db disk e len r still_open q good written well engine back =
      let left = (close_store m.aead m.serialize f p.world d).1.1 in
      let (b, lost, reopened) =
        open_store-close_store m.aead m.serialize m.deserialize key names db disk p.world d f
          un.opening len r still_open q good written well back in
      let again : Parts M = record {
        world = start b key left.blob;
        srv = server_of m un c.setup;
        client = client_of c.setup;
      } in
      (
        again,
        subst
            (λ (x : Component M × Drive).
              unlock m un key x.0 x.1
              ≡ (ok tt, (record c { parts = some again }, record x.1 { locked = true })))
            (sym (lock-parts f c p d e)) (unlock-opened un key c _ left _ reopened engine),
        unfold start in lost,
      )
