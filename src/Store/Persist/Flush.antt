-- ===== src/Store/Persist/Flush.antt =====
-- A flush that nothing hinders.
use mykeep_foundry.Store.Persist.{
  write_phase, end_phase, reseal_begin, reseal_write, reseal, shut, start, IsFull, Reach,
}
use mykeep_foundry.Prelude.{
  Bool, Bool-cases, Bytes, List, Option, String, [], ap, false, inl, inr, refl, subst, sym, true, ℕ,
  ◌∙◌, ◌≡◌, ◌≢◌, ◌⊎◌,
}
use mykeep_foundry.Store.Persist.Sections.{reseal_begin-Inv, reseal_write-Inv, reseal_end-Inv}
use mykeep_foundry.Store.Persist.Durable.{Reach-start-Inv, Inv-Holds}
use mykeep_foundry.Store.Persist.Invariant.{set_phase_self, Inv, HoldsAt}
use mykeep_foundry.Store.State.{Db}
use mykeep_foundry.Secret.{Aead}
use mykeep_foundry.Store.Persist.{Phase, idle, World, set_phase, taken, reseal_end}
use mykeep_foundry.Store.Persist.Unhindered.{
  Works, AtRest, Flushed, end-Flushed, taken-Flushed, Others-set,
}

module _ (aead : Aead) (serialize : Db → Bytes) where
  begin-AtRest :
      (t : ℕ) (w : World)
      → AtRest aead serialize w
      → w.store.dirty ≡ true
      → reseal_begin aead serialize true t w ≡ record w {
        store = record w.store { dirty = false };
        phase = set_phase w.phase t (taken w.store.write_gen (serialize w.store.db));
      }
  unfolding reseal_begin
  begin-AtRest t w q e = rw (e, q.still_open) refl

  begin-clean :
      (works : Bool) (t : ℕ) (w : World)
      → w.store.dirty ≡ false
      → reseal_begin aead serialize works t w ≡ w
  unfolding reseal_begin
  begin-clean works t w e = rw e refl

  write-at :
      (random : Option Bytes) (lands : Bool) (t : ℕ) (w : World) (p : Phase)
      → w.phase t ≡ p
      → reseal_write aead serialize random lands t w ≡ write_phase aead serialize random lands t p w
  unfolding reseal_write
  write-at random lands t w p e =
      ap (λ (q : Phase). write_phase aead serialize random lands t q w) e

  clean-Flushed :
      (random : Option Bytes) (lands : Bool) (t : ℕ) (w : World)
      → AtRest aead serialize w
      → w.store.dirty ≡ false
      → Flushed aead serialize w
          (reseal_end aead serialize t (reseal_write aead serialize random lands t w))
  clean-Flushed random lands t w q e =
      subst (λ (x : World). Flushed aead serialize w (reseal_end aead serialize t x))
        (sym (write-at random lands t w idle (q.out t)))
        (unfold write_phase in end-Flushed aead serialize t 0 w e (inl (q.out t)) (λ u _. q.out u))

  dirty-Flushed :
      (works : Bool) (random : Option Bytes) (lands : Bool) (t : ℕ) (w : World)
      → Works aead serialize works random lands
      → AtRest aead serialize w
      → Flushed aead serialize w (
          reseal_end aead serialize t (
            reseal_write aead serialize random lands t (record w {
              store = record w.store { dirty = false };
              phase = set_phase w.phase t (taken w.store.write_gen (serialize w.store.db));
            })))
  dirty-Flushed works random lands t w good q =
      let raw = serialize w.store.db in
      let gen = w.store.write_gen in
      let v : World = record w {
        store = record w.store { dirty = false };
        phase = set_phase w.phase t (taken gen raw);
      } in
      let f = taken-Flushed aead serialize works random lands t gen raw v good q.key_length refl (
        Others-set aead serialize t (record w { store = record w.store { dirty = false } })
          (taken gen raw) (λ u _. q.out u)) in
      let f' =
        subst (λ (x : World). Flushed aead serialize v (reseal_end aead serialize t x))
          (sym (
            write-at random lands t v (taken gen raw)
              (set_phase_self aead serialize [] w.phase t (taken gen raw))))
          f in
      record {
        db = f'.db;
        write_gen = f'.write_gen;
        clean = f'.clean;
        out = f'.out;
        closing = f'.closing;
      }

  -- A flush in a quiet store that nothing hinders leaves nothing to flush.
  pub reseal-Flushed :
      (works : Bool) (random : Option Bytes) (lands : Bool) (t : ℕ) (w : World)
      → Works aead serialize works random lands
      → AtRest aead serialize w
      → Flushed aead serialize w (reseal aead serialize works random lands t w)
  unfolding reseal
  reseal-Flushed works random lands t w good q = elim (Bool-cases w.store.dirty) [
    | inl e ↦
        subst
          (λ (x : World).
            Flushed aead serialize w
              (reseal_end aead serialize t (reseal_write aead serialize random lands t x)))
          (sym (
            ap (λ (b : Bool). reseal_begin aead serialize b t w) good.serializes
            ∙ begin-AtRest t w q e))
          (dirty-Flushed works random lands t w good q)
    | inr e ↦
        subst
          (λ (x : World).
            Flushed aead serialize w
              (reseal_end aead serialize t (reseal_write aead serialize random lands t x)))
          (sym (begin-clean works t w e)) (clean-Flushed random lands t w q e)
  ]

  -- Nothing to flush, nothing done to the file.
  pub reseal-start :
      (works : Bool) (random : Option Bytes) (lands : Bool) (t : ℕ) (db : Db) (dek : Bytes)
      (disk : Option Bytes)
      → (reseal aead serialize works random lands t (start db dek disk)).disk ≡ disk
  unfolding reseal reseal_begin reseal_write reseal_end write_phase end_phase start
  reseal-start works random lands t db dek disk = refl

module _ (aead : Aead) (serialize : Db → Bytes) (key : Bytes) (names : List String) where
  pub reseal-Inv :
      (works : Bool) (random : Option Bytes) (lands : Bool) (t : ℕ) (w : World)
      → IsFull aead serialize random
      → Inv aead serialize key names w
      → Inv aead serialize key names (reseal aead serialize works random lands t w)
  unfolding reseal
  reseal-Inv works random lands t w full v = reseal_end-Inv aead serialize key names t _ (
      reseal_write-Inv aead serialize key names random lands t _ full
        (reseal_begin-Inv aead serialize key names works t w v))

  Works-IsFull :
      (works : Bool) (random : Option Bytes) (lands : Bool)
      → Works aead serialize works random lands
      → IsFull aead serialize random
  Works-IsFull works random lands good = rw good.read good.whole

  -- However the calls, flushes and failures before it were interleaved: as long as the store is open and
  -- no other goroutine flushes, a flush that nothing hinders leaves the store clean with the database as
  -- it was, and the file then opens under the key to that database, up to rows of tools in `names`, those
  -- of which a `DeleteTool` was cut short, unless no call ever marked the store dirty.
  pub reseal-Holds :
      (db : Db) (disk : Option Bytes) (w : World) (works : Bool) (random : Option Bytes)
      (lands : Bool) (t : ℕ)
      → Reach aead serialize names (start db key disk) w
      → w.closing ≢ shut
      → AtRest aead serialize w
      → Works aead serialize works random lands
      → let u = reseal aead serialize works random lands t w in
        Flushed aead serialize w u
        × ((w.store.write_gen ≡ 0) ⊎ HoldsAt aead serialize key names u.disk w.store.db)
  reseal-Holds db disk w works random lands t r still_open q good =
      let u = reseal aead serialize works random lands t w in
      let f = reseal-Flushed aead serialize works random lands t w good q in
      let v =
        reseal-Inv works random lands t w (Works-IsFull works random lands good)
          (Reach-start-Inv aead serialize key names db disk r still_open) in
      (
        f,
        elim (Inv-Holds aead serialize key names u v f.clean f.out) [
          | inl none_written ↦ inl (sym f.write_gen ∙ none_written)
          | inr held ↦ inr (subst (HoldsAt aead serialize key names u.disk) f.db held)
        ],
      )
