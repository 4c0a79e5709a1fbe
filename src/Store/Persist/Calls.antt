-- ===== src/Store/Persist/Calls.antt =====
-- internal/store/store.go and tools.go: the calls of the store are steps of the runs.
use mykeep_foundry.Prelude.{Bytes, In, List, String, arith, inl, inr, suc, ◌<◌, ◌≤◌}
use mykeep_foundry.Store.Tools.{delete_tool}
use mykeep_foundry.Store.State.{Db, Env, Store, mark_dirty}
use mykeep_foundry.Store.Persist.{World, change, cut_delete, write_step, cut_step, Reach}
use mykeep_foundry.Store.Moves.{Moves, unmoved, moved_to, delete_tool-Moves}
use mykeep_foundry.Secret.{Aead}
use mykeep_foundry.Prelude.Int.{u64_mod, u64-eq}

module _ (aead : Aead) (serialize : Db → Bytes) (names : List String) where
  -- A call that moves the store is a step or none, and advances the generation by one at most.
  pub Moves-Reach :
      (env : Env) (first w : World) (s : Store)
      → Reach aead serialize names first w
      → suc w.store.write_gen < u64_mod
      → Moves env w.store s
      → Reach aead serialize names first (record w { store = s })
        × (s.write_gen ≤ suc w.store.write_gen)
  unfolding mark_dirty change
  Moves-Reach env first w s r room unmoved = (r, omega arith)
  Moves-Reach env first w s r room (moved_to db) =
      (Reach.next r (write_step env db room), ground (arith, u64-eq (suc w.store.write_gen)))

  -- So is a `DeleteTool` of a tool in `names`, wherever its statements fail.
  pub delete_tool-Reach :
      (env : Env) (name : String) (first w : World)
      → Reach aead serialize names first w
      → suc w.store.write_gen < u64_mod
      → In name names
      → Reach aead serialize names first (record w { store = (delete_tool env name w.store).1 })
  unfolding cut_delete
  delete_tool-Reach env name first w r room named = elim (delete_tool-Moves env w.store name) [
    | inl moves ↦ (Moves-Reach env first w _ r room moves).0
    | inr (runs, cut) ↦ Reach.next r (cut_step env name named runs cut)
  ]
