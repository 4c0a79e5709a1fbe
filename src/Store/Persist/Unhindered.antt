-- ===== src/Store/Persist/Unhindered.antt =====
-- internal/store/store.go, `reseal`: what a flush that nothing hinders does in its two later sections.
use mykeep_foundry.Store.Persist.{write_phase, sealed, store_blob, end_phase}
use mykeep_foundry.Prelude.{
  Bool, Bool-cases, Bytes, Option, [], ap, arith, eqb, eqb_iff, false, inl, inr, leb, length, none,
  ok, refl, some, true, ℕ, ◌++◌, ◌∙◌, ◌≡◌, ◌⊎◌,
}
use mykeep_foundry.Store.Persist.Invariant.{set_phase_self}
use mykeep_foundry.Store.State.{Db}
use mykeep_foundry.Secret.{Aead, dek_len, seal}
use mykeep_foundry.Store.Persist.{Phase, idle, World, set_phase, taken, landed, reseal_end}

module _ (aead : Aead) (serialize : Db → Bytes) where
  -- Nothing hinders it: the driver serializes, the nonce is whole, the file is written.
  pub record Works (works : Bool) (random : Option Bytes) (lands : Bool) : Type 0 where
    pub nonce : Bytes
    pub read : random ≡ some nonce
    pub whole : length nonce ≡ aead.nonce_size
    pub serializes : works ≡ true
    pub writes : lands ≡ true

  -- The store is open, and no goroutine stands in `reseal`.
  pub record AtRest (w : World) : Type 0 where
    pub still_open : w.store.closed ≡ false
    pub out : (t : ℕ) → w.phase t ≡ idle
    pub key_length : length w.dek ≡ dek_len

  -- The database is as it was, and nothing is left to flush.
  pub record Flushed (w u : World) : Type 0 where
    pub db : u.store.db ≡ w.store.db
    pub write_gen : u.store.write_gen ≡ w.store.write_gen
    pub clean : u.store.dirty ≡ false
    pub out : (t : ℕ) → u.phase t ≡ idle
    pub closing : u.closing ≡ w.closing

  seal-ok :
      (dek raw nonce : Bytes)
      → length dek ≡ dek_len
      → (blob : Bytes) × (seal aead (some nonce) dek raw ≡ ok blob)
  unfolding seal
  seal-ok dek raw nonce h = (nonce ++ aead.encrypt dek nonce raw, ground arith)

  sealed-ok :
      (works : Bool) (random : Option Bytes) (lands : Bool) (dek raw : Bytes)
      → Works works random lands
      → length dek ≡ dek_len
      → (blob : Bytes) × (sealed aead serialize random lands dek raw ≡ ok blob)
  unfolding sealed
  sealed-ok works random lands dek raw good len =
      let (blob, made) = seal-ok dek raw good.nonce len in
      (blob, rw (good.read, good.writes) (ground arith))

  -- No goroutine but `t` stands in `reseal`.
  abbrev Others : ℕ → World → Type 0
  Others t w = (u : ℕ) → eqb u t ≡ false → w.phase u ≡ idle

  set_idle : (t : ℕ) (w : World) → Others t w → (u : ℕ) → set_phase w.phase t idle u ≡ idle
  unfolding set_phase
  set_idle t w others u = elim (Bool-cases (eqb u t)) [
    | inl e ↦ rw e refl
    | inr e ↦ rw e (others u e)
  ]

  pub Others-set :
      (t : ℕ) (w : World) (p : Phase)
      → Others t w
      → Others t (record w { phase = set_phase w.phase t p })
  unfolding set_phase
  Others-set t w p others u e = rw e (others u e)

  pub end-Flushed :
      (t gen : ℕ) (w : World)
      → w.store.dirty ≡ false
      → (w.phase t ≡ idle) ⊎ (w.phase t ≡ landed gen none)
      → Others t w
      → Flushed w (reseal_end aead serialize t w)
  unfolding reseal_end end_phase
  end-Flushed t gen w clean (inl e) others = rw e (record {
    db = refl;
    write_gen = refl;
    clean = clean;
    closing = refl;
    out = λ u. elim (Bool-cases (eqb u t)) [
      | inl same ↦ ap w.phase ((eqb_iff u t).0 same) ∙ e
      | inr other ↦ others u other
    ];
  })
  end-Flushed t gen w clean (inr e) others = rw e (record {
    db = refl;
    write_gen = refl;
    clean = clean;
    closing = refl;
    out = set_idle t w others;
  })

  pub taken-Flushed :
      (works : Bool) (random : Option Bytes) (lands : Bool) (t gen : ℕ) (raw : Bytes) (w : World)
      → Works works random lands
      → length w.dek ≡ dek_len
      → w.store.dirty ≡ false
      → Others t w
      → Flushed w (
          reseal_end aead serialize t (write_phase aead serialize random lands t (taken gen raw) w))
  unfolding write_phase sealed store_blob
  taken-Flushed works random lands t gen raw w good len clean others =
      elim (Bool-cases (leb gen w.persisted_gen)) [
        | inl e ↦ rw e (
            moved (
              end-Flushed t gen (record w { phase = set_phase w.phase t idle }) clean
                (inl (set_phase_self aead serialize [] w.phase t idle))
                (Others-set t w idle others)))
        | inr e ↦
            let (blob, made) = sealed-ok works random lands w.dek raw good len in
            rw (e, made)
              (moved2 blob (
                end-Flushed t gen
                  (record w {
                    persisted_gen = gen;
                    disk = some blob;
                    phase = set_phase w.phase t (landed gen none);
                  })
                  clean (inr (set_phase_self aead serialize [] w.phase t (landed gen none)))
                  (Others-set t w (landed gen none) others)))
      ]
    where
      moved : {u : World} → Flushed (record w { phase = set_phase w.phase t idle }) u → Flushed w u
      moved f = record {
        db = f.db;
        write_gen = f.write_gen;
        clean = f.clean;
        out = f.out;
        closing = f.closing;
      }

      moved2 :
          (blob : Bytes) {u : World}
          → Flushed
              (record w {
                persisted_gen = gen;
                disk = some blob;
                phase = set_phase w.phase t (landed gen none);
              })
              u
          → Flushed w u
      moved2 blob f = record {
        db = f.db;
        write_gen = f.write_gen;
        clean = f.clean;
        out = f.out;
        closing = f.closing;
      }
