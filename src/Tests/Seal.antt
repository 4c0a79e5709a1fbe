-- ===== src/Tests/Seal.antt =====
-- The envelope and the persistence protocol at concrete inputs.
use mykeep_foundry.Prelude.{
  Bool, Bytes, [], arith, false, inl, none, refl, some, take, true, ◌++◌, ◌∷◌, ◌≡◌, ◌⊎◌,
}
use mykeep_foundry.Store.Tools.{delete_tool}
use mykeep_foundry.Prelude.Int.{u64}
use mykeep_foundry.Store.State.{Db, empty_db, mark_dirty, Stmt, grants_delete, Env}
use mykeep_foundry.Store.Persist.Race.{close_race}
use mykeep_foundry.Store.Persist.Invariant.{HoldsAt}
use mykeep_foundry.Store.Persist.Durable.{clean-Holds}
use mykeep_foundry.Store.Persist.{
  shut, World, set_phase, start, reseal_begin, reseal_write, reseal_end, change, write_step,
  begin_step, seal_step, end_step, Reach, cut_delete, cut_step,
}
use mykeep_foundry.Secret.{seal, Envelope, Randomness}
use mykeep_foundry.Tests.{quiet, notes_db, tagging, nonce12, key32}

-- A derivation that looks at the password and at the salt.
abbrev short_kdf : Bytes → Bytes → Bytes
short_kdf password salt = take 32 (password ++ salt ++ key32)

abbrev fresh : Randomness
fresh = record { salt = some (7 ∷ []); dek = some key32; nonce = some nonce12 }

abbrev minted : Envelope
minted = record { version = 1; salt = 7 ∷ []; wrapped = nonce12 ++ 42 ∷ key32 }

-- A database is written as its message counter.
abbrev serialize : Db → Bytes
serialize db = db.sequence ∷ []

-- A write, and then a whole `reseal` of the goroutine 1.
abbrev flushed : World
flushed = reseal_end tagging serialize 1 (
    reseal_write tagging serialize (some nonce12) true 1 (
      reseal_begin tagging serialize true 1
        (change tagging serialize quiet notes_db (start empty_db key32 none))))

-- The second statement of a `DeleteTool` fails.
is_grants_delete : Stmt → Bool
is_grants_delete grants_delete = true
is_grants_delete _ = false

abbrev halfway : Env
halfway = record { clock = 1700000000000000000; fails = is_grants_delete }

-- Then a `DeleteTool` of the clock is cut short.
abbrev cut : World
cut = cut_delete tagging serialize halfway "clock" flushed

cutting : Reach tagging serialize ("clock" ∷ []) (start empty_db key32 none) cut
unfolding start change reseal_end reseal_write reseal_begin set_phase u64 seal is_grants_delete
cutting =
    Reach.next
      (Reach.next
        (Reach.next
          (Reach.next (Reach.next Reach.here (write_step quiet notes_db (omega arith)))
            (begin_step true 0 refl))
          (seal_step (some nonce12) true 1 refl))
        (end_step 1))
      (cut_step halfway "clock" (inl refl) refl refl)

clean-Holds_example :
    (cut.store.write_gen ≡ 0) ⊎ HoldsAt tagging serialize key32 ("clock" ∷ []) cut.disk cut.store.db
unfolding start change mark_dirty reseal_begin reseal_write reseal_end set_phase u64 seal cut_delete
    delete_tool is_grants_delete
clean-Holds_example =
    clean-Holds tagging serialize key32 ("clock" ∷ []) empty_db none cut cutting (λ h. cc) refl
      (λ t. ground arith)

-- The goroutine 1 has its snapshot, and then writes it.
abbrev snapped : World
snapped =
    reseal_begin tagging serialize true 1
      (change tagging serialize quiet notes_db (start empty_db key32 none))

abbrev written : World
written = reseal_write tagging serialize (some nonce12) true 1 snapped

close_race_example :
    (w : World) × Reach tagging serialize [] (start empty_db key32 none) w
    × (w.closing ≡ shut)
    × (w.disk ≡ some (nonce12 ++ 42 ∷ 1 ∷ []))
close_race_example =
    close_race tagging serialize empty_db notes_db key32 nonce12 none quiet refl refl
