-- ===== src/Engine/Stall.antt =====
-- A tool that waits for nothing is given up.
use mykeep_foundry.Engine.{
  frames, nudge, spin, after_frames, stalled, Sandbox, Running, round, loop,
}
use mykeep_foundry.Prelude.{
  Bool-cases, Bytes, Result, String, [], arith, err, false, inl, inr, ltb, some, suc, true, zero, ℕ,
  ◌+◌, ◌≡◌, ◌≤◌,
}
use mykeep_foundry.Store.State.{Env}
use mykeep_foundry.Host.Dispatcher.{CallErr}

-- From a state of `Q` on, the sandbox writes no frame and has nothing pending, no statement of it
-- fails, and the deadline does not pass.
pub record Quiet {M : Type 0} (vm : Sandbox M) (Q : M → Type 0) : Type 0 where
  pub alive : (m : M) → Q m → vm.expired m ≡ false
  pub silent : (m : M) → Q m → ((vm.take_frames m).0 ≡ []) × Q (vm.take_frames m).1
  pub idling : (m : M) → Q m → ((vm.loop_once m).0 ≡ some false) × Q (vm.loop_once m).1
  pub nudged : (m : M) → Q m → ((vm.poll_io m).0 ≡ true) × Q (vm.poll_io m).1

module _ {M H : Type 0} (vm : Sandbox M)
    (host : Env → String → Bytes → H → Result CallErr Bytes × H) (Q : M → Type 0)
    (quiet : Quiet vm Q) where
  -- The state that an idle round leaves.
  abbrev idled : Running M H → Running M H
  idled r =
      let m = (vm.loop_once (vm.take_frames r.sandbox).1).1 in
      record r { sandbox = (vm.poll_io m).1 }

  idled-Q : (r : Running M H) → Q r.sandbox → Q (idled r).sandbox
  idled-Q r q = (quiet.nudged _ (quiet.idling _ (quiet.silent r.sandbox q).1).1).1

  round-idle :
      (spins : ℕ) (r : Running M H)
      → Q r.sandbox
      → round vm host spins r ≡ nudge vm host spins true (idled r)
  unfolding round frames after_frames spin
  round-idle spins r q =
      let (none_written, q1) = quiet.silent r.sandbox q in
      let (none_pending, q2) = quiet.idling _ q1 in
      rw (quiet.alive r.sandbox q, none_written, none_pending, (quiet.nudged _ q2).0)

  -- Where the sandbox is quiet, the loop gives the tool up, after as many rounds as are left of 257.
  pub loop-stalled :
      (n spins : ℕ) (r : Running M H)
      → Q r.sandbox
      → spins ≤ 256
      → 257 ≤ n + spins
      → (loop vm host n spins r).0 ≡ some (err stalled)
  unfolding loop nudge
  loop-stalled zero spins r q low enough = absurd (omega arith)
  loop-stalled (suc n) spins r q low enough = elim (Bool-cases (ltb 256 (spins + 1))) [
    | inl e ↦ rw (loop, round-idle spins r q, e)
    | inr e ↦
        rw (loop, round-idle spins r q, e)
          (loop-stalled n (spins + 1) (idled r) (idled-Q r q) (ground arith) (omega arith))
  ]
