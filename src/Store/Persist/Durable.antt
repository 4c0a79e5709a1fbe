-- ===== src/Store/Persist/Durable.antt =====
-- No write that a call acknowledged is lost while the store is open, whatever the interleaving.
use native.Mathlib.Decide.{dec_lt}
use mykeep_foundry.Store.Persist.{
  write_phase, sealed, stopped, resealing, start, reseal_begin, reseal_write, reseal_end, change,
  write_step, begin_step, seal_step, end_step, stop_step, close_reseal_step, mark_step, shut_step,
  Reach, cut_delete, cut_step,
}
use mykeep_foundry.Prelude.{
  Bool, Bytes, List, Option, Result-cases, String, arith, false, inl, inr, refl, subst, suc, true,
  ℕ, ◌∙◌, ◌≡◌, ◌≢◌, ◌⊎◌,
}
use mykeep_foundry.Store.Persist.Sections.{reseal_begin-Inv, reseal_write-Inv, reseal_end-Inv}
use mykeep_foundry.Store.State.{Db, Store}
use mykeep_foundry.Store.Persist.Invariant.{
  PhaseOk, Inv, Owes, change-Inv, Owed, HoldsAt, cut_delete-Inv,
}
use mykeep_foundry.Store.Persist.{Phase, idle, taken, landed, Closing, marked, shut, World, Step}
use mykeep_foundry.Secret.{Aead}

-- A step of `Close` beyond its last is no step.
abbrev IsShut : World → Type 0
IsShut w = w.closing ≡ shut

module _ (aead : Aead) (serialize : Db → Bytes) (key : Bytes) (names : List String) where
  moved :
      (w : World) (s : Store) (c : Closing)
      → s ≡ w.store
      → Inv aead serialize key names w
      → Inv aead serialize key names (record w { store = s; closing = c })
  moved w s c e v = rw e (record {
    key_in_place = v.key_in_place;
    phases = v.phases;
    persisted = v.persisted;
    on_disk = v.on_disk;
    owed = v.owed;
  })

  marked-Inv :
      (w : World)
      → Inv aead serialize key names w
      → Inv aead serialize key names
          (record w { store = record w.store { closed = true }; closing = marked })
  marked-Inv w v = record {
    key_in_place = v.key_in_place;
    phases = λ t. closed-Ok (w.phase t) (v.phases t);
    persisted = v.persisted;
    on_disk = v.on_disk;
    owed = v.owed;
  }
    where
      closed-Ok :
          (p : Phase)
          → PhaseOk aead serialize key names w.store p
          → PhaseOk aead serialize key names (record w.store { closed = true }) p
      closed-Ok idle h = tt
      closed-Ok (taken gen raw) h = h
      closed-Ok (landed gen r) h = h

  closing-reseal_begin :
      (works : Bool) (t : ℕ) (w : World)
      → (reseal_begin aead serialize works t w).closing ≡ w.closing
  unfolding reseal_begin
  closing-reseal_begin works t w = ground arith

  closing-write_phase :
      (random : Option Bytes) (lands : Bool) (t : ℕ) (p : Phase) (w : World)
      → (write_phase aead serialize random lands t p w).closing ≡ w.closing
  unfolding write_phase
  closing-write_phase random lands t (taken gen raw) w =
      elim (Result-cases (sealed aead serialize random lands w.dek raw)) [
        | inl (blob, e) ↦ rw e (ground arith)
        | inr (r, e) ↦ rw e (ground arith)
      ]
  closing-write_phase random lands t _ w = refl

  pub closing-reseal_write :
      (random : Option Bytes) (lands : Bool) (t : ℕ) (w : World)
      → (reseal_write aead serialize random lands t w).closing ≡ w.closing
  unfolding reseal_write
  closing-reseal_write random lands t w = closing-write_phase random lands t (w.phase t) w

  closing-reseal_end : (t : ℕ) (w : World) → (reseal_end aead serialize t w).closing ≡ w.closing
  unfolding reseal_end
  closing-reseal_end t w = ground arith

  Step-Inv :
      {w u : World}
      → Step aead serialize names w u
      → IsShut w ⊎ Inv aead serialize key names w
      → IsShut u ⊎ Inv aead serialize key names u
  Step-Inv {w} (write_step env db room) (inl s) = inl (unfold change in s)
  Step-Inv {w} (cut_step env name named runs cut) (inl s) = inl (unfold cut_delete in s)
  Step-Inv {w} (begin_step works t out) (inl s) = inl (closing-reseal_begin works (suc t) w ∙ s)
  Step-Inv {w} (seal_step random lands t full) (inl s) =
      inl (closing-reseal_write random lands t w ∙ s)
  Step-Inv {w} (end_step t) (inl s) = inl (closing-reseal_end t w ∙ s)
  Step-Inv (stop_step c) (inl s) = inl cc
  Step-Inv (close_reseal_step works c) (inl s) = inl cc
  Step-Inv (mark_step c out) (inl s) = inl cc
  Step-Inv (shut_step c) (inl s) = inl refl
  Step-Inv {w} (write_step env db room) (inr v) =
      inr (change-Inv aead serialize key names env db w room v)
  Step-Inv {w} (cut_step env name named runs cut) (inr v) =
      inr (cut_delete-Inv aead serialize key names env name w named runs cut v)
  Step-Inv {w} (begin_step works t out) (inr v) =
      inr (reseal_begin-Inv aead serialize key names works (suc t) w v)
  Step-Inv {w} (seal_step random lands t full) (inr v) =
      inr (reseal_write-Inv aead serialize key names random lands t w full v)
  Step-Inv {w} (end_step t) (inr v) = inr (reseal_end-Inv aead serialize key names t w v)
  Step-Inv {w} (stop_step c) (inr v) = inr (moved w w.store stopped refl v)
  Step-Inv {w} (close_reseal_step works c) (inr v) =
      let u = reseal_begin aead serialize works 0 w in
      inr (moved u u.store resealing refl (reseal_begin-Inv aead serialize key names works 0 w v))
  Step-Inv {w} (mark_step c out) (inr v) = inr (marked-Inv w v)
  Step-Inv (shut_step c) (inr v) = inl refl

  start-Inv : (db : Db) (disk : Option Bytes) → Inv aead serialize key names (start db key disk)
  unfolding start
  start-Inv db disk = record {
    key_in_place = refl;
    phases = λ t. tt;
    persisted = omega arith;
    on_disk = λ some_gen same. absurd (omega arith);
    owed = λ clean. inl refl;
  }

  Reach-Inv :
      {w u : World}
      → IsShut w ⊎ Inv aead serialize key names w
      → Reach aead serialize names w u
      → IsShut u ⊎ Inv aead serialize key names u
  Reach-Inv h Reach.here = h
  Reach-Inv h (Reach.next r st) = Step-Inv st (Reach-Inv h r)

  -- A goroutine that has left `reseal` owes nothing.
  not-Owed :
      (g : ℕ) (w : World) → ((t : ℕ) → w.phase t ≡ idle) → ¬ Owed aead serialize key g w.phase
  not-Owed g w out (t, debt) = subst (Owes aead serialize key g) (out t) debt

  pub Inv-Holds :
      (w : World)
      → Inv aead serialize key names w
      → w.store.dirty ≡ false
      → ((t : ℕ) → w.phase t ≡ idle)
      → (w.store.write_gen ≡ 0) ⊎ HoldsAt aead serialize key names w.disk w.store.db
  Inv-Holds w v clean out = elim (v.owed clean) [
    | inl same ↦ elim (dec_lt 0 w.persisted_gen) [
      | yes some_gen ↦ inr (v.on_disk some_gen same)
      | no none_gen ↦ inl (omega arith)
    ]
    | inr debt ↦ absurd (not-Owed w.store.write_gen w out debt)
  ]

  -- After any interleaving of calls, flushes and a `Close` that has not yet dropped the key: where
  -- the store is not dirty and no goroutine stands in `reseal`, either no call marked it dirty since the
  -- start, or the file opens under the key to the database as it is in memory, up to rows of tools in
  -- `names`: those of which a `DeleteTool` was cut short between its two statements, which the store does
  -- not write. With no `names` the file has the database itself.
  pub clean-Holds :
      (db : Db) (disk : Option Bytes) (w : World)
      → Reach aead serialize names (start db key disk) w
      → w.closing ≢ shut
      → w.store.dirty ≡ false
      → ((t : ℕ) → w.phase t ≡ idle)
      → (w.store.write_gen ≡ 0) ⊎ HoldsAt aead serialize key names w.disk w.store.db
  clean-Holds db disk w r open_still clean out = elim (Reach-Inv (inr (start-Inv db disk)) r) [
    | inl s ↦ absurd (open_still s)
    | inr v ↦ Inv-Holds w v clean out
  ]

  pub Reach-start-Inv :
      (db : Db) (disk : Option Bytes) {w : World}
      → Reach aead serialize names (start db key disk) w
      → w.closing ≢ shut
      → Inv aead serialize key names w
  Reach-start-Inv db disk r open_still = elim (Reach-Inv (inr (start-Inv db disk)) r) [
    | inl s ↦ absurd (open_still s)
    | inr v ↦ v
  ]
