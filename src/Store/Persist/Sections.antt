-- ===== src/Store/Persist/Sections.antt =====
-- Each critical section of `reseal`, and each call that changes the database, keeps the invariant.
use native.Mathlib.Nat.{le_refl}
use mykeep_foundry.Store.Persist.{write_phase, end_phase, store_blob, sealed, FlushErr}
use mykeep_foundry.Prelude.{
  Bool, Bool-cases, Bytes, List, Option, Result, String, ap, arith, err, false, inl, inr, leb,
  leb→le, none, ok, refl, some, subst, true, ℕ, ◌<◌, ◌∙◌, ◌≡◌,
}
use mykeep_foundry.Store.Persist.Invariant.{
  PhaseOk, Inv, PhaseOk-clean, set_phase_self, owed_split, set_phase-Ok, all_kept,
}
use mykeep_foundry.Store.State.{Db}
use mykeep_foundry.Store.Persist.{
  Phase, idle, taken, landed, World, set_phase, reseal_begin, reseal_write, reseal_end, IsFull,
  serialize_failed,
}
use mykeep_foundry.Secret.{Aead, open_blob, seal, open_blob-seal}

module _ (aead : Aead) (serialize : Db → Bytes) (key : Bytes) (names : List String) where
  abbrev snapshot : ℕ → World → World
  snapshot t w = record w {
    store = record w.store { dirty = false };
    phase = set_phase w.phase t (taken w.store.write_gen (serialize w.store.db));
  }

  pub reseal_begin_cases :
      (P : World → Type 0) (works : Bool) (t : ℕ) (w : World)
      → P w
      → P (record w { last_flush_err = some serialize_failed })
      → (w.store.dirty ≡ true → P (snapshot t w))
      → P (reseal_begin aead serialize works t w)
  unfolding reseal_begin
  reseal_begin_cases P works t w same failed took = elim (Bool-cases w.store.dirty) [
    | inl e ↦ let h = took e in ground arith
    | inr e ↦ ground arith
  ]

  pub reseal_begin-Inv :
      (works : Bool) (t : ℕ) (w : World)
      → Inv aead serialize key names w
      → Inv aead serialize key names (reseal_begin aead serialize works t w)
  reseal_begin-Inv works t w v =
      reseal_begin_cases (Inv aead serialize key names) works t w v
        (record {
          key_in_place = v.key_in_place;
          phases = v.phases;
          persisted = v.persisted;
          on_disk = v.on_disk;
          owed = v.owed;
        })
        λ dirty. record {
          key_in_place = v.key_in_place;
          phases =
              set_phase-Ok aead serialize key names (record w.store { dirty = false }) w.phase t _
                (λ u. PhaseOk-clean aead serialize key names w.store false (w.phase u) (v.phases u))
                (le_refl _, λ same. (w.store.db, all_kept, refl));
          persisted = v.persisted;
          on_disk = v.on_disk;
          owed = λ clean. inr (
            t,
            rw
                (set_phase_self aead serialize key w.phase t
                  (taken w.store.write_gen (serialize w.store.db)))
                refl,
          );
        }

  sealed-ok :
      (random : Option Bytes) (lands : Bool) (dek raw : Bytes) {blob : Bytes}
      → IsFull aead serialize random
      → sealed aead serialize random lands dek raw ≡ ok blob
      → open_blob aead dek blob ≡ ok raw
  unfolding sealed
  sealed-ok none lands dek raw full h = unfold seal in ground arith
  sealed-ok (some nonce) lands dek raw {blob} full h =
      ground (arith, open_blob-seal aead nonce dek raw {blob = blob} full)

  store_blob-Inv :
      (t gen : ℕ) (raw : Bytes) (r : Result FlushErr Bytes) (w : World)
      → w.phase t ≡ taken gen raw
      → w.persisted_gen < gen
      → ((blob : Bytes) → r ≡ ok blob → open_blob aead key blob ≡ ok raw)
      → Inv aead serialize key names w
      → Inv aead serialize key names (store_blob aead serialize t gen r w)
  unfolding store_blob
  store_blob-Inv t gen raw (ok blob) w e newer opens v =
      let mine : PhaseOk aead serialize key names w.store (taken gen raw) =
        subst (PhaseOk aead serialize key names w.store) e (v.phases t) in
      record {
        key_in_place = v.key_in_place;
        phases =
            set_phase-Ok aead serialize key names w.store w.phase t (landed gen none) v.phases
              mine.0;
        persisted = mine.0;
        on_disk = λ some_gen same. let (b, l, e) = mine.1 same in (b, l, opens blob refl ∙ ap ok e);
        owed = λ clean. elim (v.owed clean) [
          | inl same ↦ absurd (omega (arith, mine.0))
          | inr debt ↦
              owed_split aead serialize key _ w.store.write_gen t w.phase (landed gen none)
                (taken gen raw) e inl inr debt
        ];
      }
  store_blob-Inv t gen raw (err r) w e newer opens v =
      let mine : PhaseOk aead serialize key names w.store (taken gen raw) =
        subst (PhaseOk aead serialize key names w.store) e (v.phases t) in
      record {
        key_in_place = v.key_in_place;
        phases =
            set_phase-Ok aead serialize key names w.store w.phase t (landed gen (some r)) v.phases
              mine.0;
        persisted = v.persisted;
        on_disk = v.on_disk;
        owed = λ clean. elim (v.owed clean) [
          | inl same ↦ inl same
          | inr debt ↦
              owed_split aead serialize key _ w.store.write_gen t w.phase (landed gen (some r))
                (taken gen raw) e
                (λ own.
                  inr
                    (t, rw (set_phase_self aead serialize key w.phase t (landed gen (some r))) own))
                inr debt
        ];
      }

  write_phase-Inv :
      (random : Option Bytes) (lands : Bool) (t : ℕ) (p : Phase) (w : World)
      → IsFull aead serialize random
      → w.phase t ≡ p
      → Inv aead serialize key names w
      → Inv aead serialize key names (write_phase aead serialize random lands t p w)
  unfolding write_phase
  write_phase-Inv random lands t idle w full e v = v
  write_phase-Inv random lands t (landed gen r) w full e v = v
  write_phase-Inv random lands t (taken gen raw) w full e v =
      elim (Bool-cases (leb gen w.persisted_gen)) [
        | inl old ↦ rw old (record {
          key_in_place = v.key_in_place;
          phases = set_phase-Ok aead serialize key names w.store w.phase t idle v.phases tt;
          persisted = v.persisted;
          on_disk = v.on_disk;
          owed = λ clean. elim (v.owed clean) [
            | inl same ↦ inl same
            | inr debt ↦
                owed_split aead serialize key _ w.store.write_gen t w.phase idle (taken gen raw) e
                  (λ own. inl (omega (arith, own, v.persisted, leb→le gen w.persisted_gen old))) inr
                  debt
          ];
        })
        | inr newer ↦ rw newer (
            store_blob-Inv t gen raw _ w e (ground arith)
              (λ blob made. sealed-ok random lands key raw full (
                subst (λ (k : Bytes). sealed aead serialize random lands k raw ≡ ok blob)
                  v.key_in_place made))
              v)
      ]

  pub reseal_write-Inv :
      (random : Option Bytes) (lands : Bool) (t : ℕ) (w : World)
      → IsFull aead serialize random
      → Inv aead serialize key names w
      → Inv aead serialize key names (reseal_write aead serialize random lands t w)
  unfolding reseal_write
  reseal_write-Inv random lands t w full v =
      write_phase-Inv random lands t (w.phase t) w full refl v

  end_phase-Inv :
      (t : ℕ) (p : Phase) (w : World)
      → w.phase t ≡ p
      → Inv aead serialize key names w
      → Inv aead serialize key names (end_phase aead serialize t p w)
  unfolding end_phase
  end_phase-Inv t idle w e v = v
  end_phase-Inv t (taken gen raw) w e v = v
  end_phase-Inv t (landed gen none) w e v = record {
    key_in_place = v.key_in_place;
    phases = set_phase-Ok aead serialize key names w.store w.phase t idle v.phases tt;
    persisted = v.persisted;
    on_disk = v.on_disk;
    owed = λ clean. elim (v.owed clean) [
      | inl same ↦ inl same
      | inr debt ↦
          owed_split aead serialize key _ w.store.write_gen t w.phase idle (landed gen none) e
            (λ own. absurd own) inr debt
    ];
  }
  end_phase-Inv t (landed gen (some r)) w e v = record {
    key_in_place = v.key_in_place;
    phases =
        set_phase-Ok aead serialize key names (record w.store { dirty = true }) w.phase t idle
          (λ u. PhaseOk-clean aead serialize key names w.store true (w.phase u) (v.phases u)) tt;
    persisted = v.persisted;
    on_disk = v.on_disk;
    owed = λ clean. cc;
  }

  pub reseal_end-Inv :
      (t : ℕ) (w : World)
      → Inv aead serialize key names w
      → Inv aead serialize key names (reseal_end aead serialize t w)
  unfolding reseal_end
  reseal_end-Inv t w v = end_phase-Inv t (w.phase t) w refl v
