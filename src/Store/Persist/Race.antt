-- ===== src/Store/Persist/Race.antt =====
-- `reseal` beside other goroutines and beside `Close`: the generations on the disk only grow; a
-- goroutine that seals after `Close` has zeroed the key does so under the zeros.
use mykeep_foundry.Store.Persist.{write_phase, sealed, set_phase, cut_delete, cut_step}
use mykeep_foundry.Prelude.{
  Bool, Bytes, List, Option, Result-cases, String, [], ap, arith, inl, inr, length, ok, refl, some,
  suc, true, ℕ, ◌++◌, ◌<◌, ◌∙◌, ◌∷◌, ◌≡◌, ◌⊎◌,
}
use mykeep_foundry.Store.Persist.Durable.{closing-reseal_write}
use mykeep_foundry.Prelude.Int.{u64}
use mykeep_foundry.Store.State.{Db, Env, mark_dirty}
use mykeep_foundry.Store.Persist.{
  Phase, idle, taken, landed, stopped, shut, World, start, zeroed, reseal_begin, reseal_write,
  reseal_end, change, Step, write_step, begin_step, seal_step, end_step, stop_step,
  close_reseal_step, mark_step, shut_step, Reach,
}
use mykeep_foundry.Secret.{Aead, seal}

module _ (aead : Aead) (serialize : Db → Bytes) where
  -- The file changes only together with a growing generation.
  abbrev Advances : World → World → Type 0
  Advances w u =
      ((u.disk ≡ w.disk) × (u.persisted_gen ≡ w.persisted_gen))
      ⊎ (w.persisted_gen < u.persisted_gen)

  write_phase-Advances :
      (random : Option Bytes) (lands : Bool) (t : ℕ) (p : Phase) (w : World)
      → Advances w (write_phase aead serialize random lands t p w)
  unfolding write_phase
  write_phase-Advances random lands t idle w = inl (refl, refl)
  write_phase-Advances random lands t (landed gen r) w = inl (refl, refl)
  write_phase-Advances random lands t (taken gen raw) w =
      elim (Result-cases (sealed aead serialize random lands w.dek raw)) [
        | inl (blob, e) ↦ rw e (ground arith)
        | inr (r, e) ↦ rw e (ground arith)
      ]

  -- No step of any goroutine puts an older generation over a newer one: the file changes only
  -- when its generation grows.
  pub Step-Advances :
      {names : List String} {w u : World} → Step aead serialize names w u → Advances w u
  Step-Advances {w = w} (write_step env db room) = unfold change in inl (refl, refl)
  Step-Advances {w = w} (cut_step env name named runs cut) = unfold cut_delete in inl (refl, refl)
  Step-Advances {w = w} (begin_step works t out) = unfold reseal_begin in ground arith
  Step-Advances {w = w} (seal_step random lands t full) =
      unfold reseal_write in write_phase-Advances random lands t (w.phase t) w
  Step-Advances {w = w} (end_step t) = unfold reseal_end in ground arith
  Step-Advances (stop_step c) = inl (refl, refl)
  Step-Advances (close_reseal_step works c) = unfold reseal_begin in ground arith
  Step-Advances (mark_step c out) = inl (refl, refl)
  Step-Advances (shut_step c) = inl (refl, refl)

  length-zeroed : (b : Bytes) → length (zeroed b) ≡ length b
  unfolding zeroed
  length-zeroed [] = refl
  length-zeroed (x ∷ b) = ap suc (length-zeroed b)

  seal-ok :
      (nonce dek raw : Bytes)
      → length dek ≡ 32
      → seal aead (some nonce) dek raw ≡ ok (nonce ++ aead.encrypt dek nonce raw)
  unfolding seal
  seal-ok nonce dek raw h = ground arith

  -- A goroutine whose snapshot is newer than the file, and whose write lands, seals it under the key
  -- that stands in `dek` at that moment.
  reseal_write-disk :
      (nonce raw : Bytes) (gen t : ℕ) (w : World)
      → w.phase t ≡ taken gen raw
      → w.persisted_gen < gen
      → length w.dek ≡ 32
      → (reseal_write aead serialize (some nonce) true t w).disk
        ≡ some (nonce ++ aead.encrypt w.dek nonce raw)
  unfolding reseal_write
  reseal_write-disk nonce raw gen t w e newer len =
      rw (e, write_phase) (ground (arith, seal-ok nonce w.dek raw len))

  -- One write, a goroutine in `reseal` with its snapshot, a whole `Close`, and the goroutine's write.
  abbrev raced : Db → Bytes → Option Bytes → Env → Db → Bytes → World
  raced db key disk env new nonce =
      let w =
        reseal_begin aead serialize true 1 (change aead serialize env new (start db key disk)) in
      let w = reseal_begin aead serialize true 0 (record w { closing = stopped }) in
      let w = record w {
        store = record w.store { closed = true };
        dek = zeroed w.dek;
        closing = shut;
      } in
      reseal_write aead serialize (some nonce) true 1 w

  -- Whatever the key, the database and the write: there is a run in which the write is acknowledged
  -- and `Close` runs to its end, and which leaves the file sealed under a key of zeros.
  pub close_race :
      (db new : Db) (key nonce : Bytes) (disk : Option Bytes) (env : Env)
      → length key ≡ 32
      → length nonce ≡ aead.nonce_size
      → (w : World) × Reach aead serialize [] (start db key disk) w
        × (w.closing ≡ shut)
        × (w.disk ≡ some (nonce ++ aead.encrypt (zeroed key) nonce (serialize new)))
  unfolding start change mark_dirty reseal_begin set_phase u64
  close_race db new key nonce disk env len full = (
    raced db key disk env new nonce,
    Reach.next
        (Reach.next
          (Reach.next
            (Reach.next
              (Reach.next
                (Reach.next (Reach.next Reach.here (write_step env new (omega arith)))
                  (begin_step true 0 refl))
                (stop_step refl))
              (close_reseal_step true refl))
            (mark_step refl refl))
          (shut_step refl))
        (seal_step (some nonce) true 1 full),
    closing-reseal_write aead serialize key [] (some nonce) true 1 _,
    reseal_write-disk nonce (serialize new) 1 1 _ refl (omega arith) (length-zeroed key ∙ len),
  )
