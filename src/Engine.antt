-- ===== src/Engine.antt =====
-- internal/jsengine/invoke.go: `InvokeWithLimits`, the event loop between a tool in its sandbox and
-- the host. QuickJS under wazero, with the pipe and the frame writer around it, is a parameter.
pub mod Served
pub mod Stall
pub mod Pipe
pub mod Transport
use mykeep_foundry.Prelude.{
  Bool, Bytes, List, Option, Result, String, [], err, false, if◌then◌else◌, ltb, none, not, ok,
  some, suc, true, zero, ℕ, ◌++◌, ◌+◌, ◌||◌, ◌∷◌, ◌>>=◌, ◌>>◌,
}
use mykeep_foundry.Store.State.{Env}
use mykeep_foundry.Prelude.Int.{ℤ, pos, ltb_ℤ}
use mykeep_foundry.Host.Text.{codes}
use mykeep_foundry.Host.Dispatcher.{CallErr, jnull}

-- A frame that the tool wrote, as `fw.take` yields it.
pub data Frame : Type 0 where
  call_frame : ℕ → String → Bytes → Frame
  log_frame : String → String → Frame
  result_frame : Bytes → Frame
  error_frame : String → Frame
  other_frame : Frame

-- `LogLine`
pub record LogLine : Type 0 where
  pub level : String
  pub msg : String

-- `Limits`; the wall clock is a duration in nanoseconds.
pub record Limits : Type 0 where
  pub wall : ℤ
  pub mem_pages : ℕ

pub data EngineErr : Type 0 where
  boot_failed timeout load_failed respond_failed loop_failed stalled : EngineErr
  tool_error : String → EngineErr

-- What the loop uses of the sandbox, over its states: starting it with an input and a memory limit,
-- the deadline and whether it has passed, `Eval` and whether it worked, the frames written since the
-- last look, the response to a call, `LoopOnce` (none on an error, else whether something is
-- pending), `PollIO`, and what the machine decides for a host call that is made now.
pub record Sandbox (M : Type 0) : Type 0 where
  pub boot : Bytes → ℕ → Option M
  pub with_deadline : ℤ → M → M
  pub expired : M → Bool
  pub eval : Bytes → M → Bool × M
  pub take_frames : M → List Frame × M
  pub respond : ℕ → Result CallErr Bytes → M → Bool × M
  pub loop_once : M → Option Bool × M
  pub poll_io : M → Bool × M
  pub machine : M → Env

-- A tool at work: the sandbox, the state of the host, and the lines that it logged.
pub record Running (M H : Type 0) : Type 0 where
  pub sandbox : M
  pub host : H
  pub logs : List LogLine

-- What one round of the loop comes to: the end, or another round with the count of idle ones.
pub data Turn (M H : Type 0) : Type 0 where
  ended : Result EngineErr Bytes → Running M H → Turn M H
  again : ℕ → Running M H → Turn M H

abbrev max_idle_spins : ℕ
max_idle_spins = 256

-- `writeResp` sends JSON null for an empty value.
abbrev response : Result CallErr Bytes → Result CallErr Bytes
response (ok []) = ok jnull
response (ok (b ∷ bs)) = ok (b ∷ bs)
response (err e) = err e

abbrev any_frames : List Frame → Bool
any_frames [] = false
any_frames (f ∷ fs) = true

-- `{}` stands for no input.
abbrev input_of : Bytes → Bytes
input_of [] = codes "{}"
input_of (b ∷ bs) = b ∷ bs

module _ {M H : Type 0} (vm : Sandbox M)
    (host : Env → String → Bytes → H → Result CallErr Bytes × H) where
  answered : ℕ → String → Bytes → Running M H → Bool × Running M H
  answered id op args r =
      let (val, h) = host (vm.machine r.sandbox) op args r.host in
      let (worked, m) = vm.respond id (response val) r.sandbox in
      (worked, record r { sandbox = m; host = h })

  -- The loop over the frames; none goes on.
  frames : List Frame → Running M H → Option (Result EngineErr Bytes) × Running M H
  unfolding answered
  frames [] r = (none, r)
  frames (call_frame id op args ∷ fs) r =
      let a = answered id op args r in
      let rest = frames fs a.1 in if a.0 then rest else (some (err respond_failed), a.1)
  frames (log_frame level msg ∷ fs) r =
      frames fs (record r { logs = r.logs ++ record { level = level; msg = msg } ∷ [] })
  frames (result_frame v ∷ fs) r = (some (ok v), r)
  frames (error_frame msg ∷ fs) r = (some (err (tool_error msg)), r)
  frames (other_frame ∷ fs) r = frames fs r

  -- An idle round: the nudge, and the count.
  nudge : ℕ → Bool → Running M H → Turn M H
  nudge spins worked r =
      if not worked
      then ended (err loop_failed) r
      else if ltb max_idle_spins (spins + 1)
      then ended (err stalled) r
      else again (spins + 1) r

  spin : ℕ → Bool → Option Bool → Running M H → Turn M H
  unfolding nudge
  spin spins progressed none r =
      ended (if vm.expired r.sandbox then err timeout else err loop_failed) r
  spin spins progressed (some pending) r =
      if pending || progressed
      then again 0 r
      else nudge spins (vm.poll_io r.sandbox).0 (record r { sandbox = (vm.poll_io r.sandbox).1 })

  after_frames : ℕ → Bool → Option (Result EngineErr Bytes) → Running M H → Turn M H
  unfolding spin
  after_frames spins progressed (some e) r = ended e r
  after_frames spins progressed none r =
      let (pending, m) = vm.loop_once r.sandbox in
      spin spins progressed pending (record r { sandbox = m })

  -- One round of the loop.
  unfoldable pub round : ℕ → Running M H → Turn M H
  unfolding frames after_frames
  round spins r =
      if vm.expired r.sandbox
      then ended (err timeout) r
      else let (fs, m) = vm.take_frames r.sandbox in
        let (e, r') = frames fs (record r { sandbox = m }) in
        after_frames spins (any_frames fs) e r'

  -- The loop, for so many rounds; none where it still runs after them.
  unfoldable pub loop : ℕ → ℕ → Running M H → Option (Result EngineErr Bytes) × Running M H
  unfolding round
  loop zero spins r = (none, r)
  loop (suc n) spins r = elim (round spins r) [
    | ended e r' ↦ (some e, r')
    | again spins' r' ↦ loop n spins' r'
  ]

  -- `q.Eval` of the tool, and of the call of its `run`.
  evaluated : Bytes → M → Result EngineErr M
  evaluated code m =
      let (worked, m') = vm.eval code m in
      if worked then ok m' else if vm.expired m' then err timeout else err load_failed

  booted : Bytes → Bytes → Limits → Result EngineErr M
  unfolding evaluated
  booted source input lim = elim (vm.boot (input_of input) lim.mem_pages) [
    | none ↦ err boot_failed
    | some m ↦ do
      m ← evaluated source (if ltb_ℤ (pos 0) lim.wall then vm.with_deadline lim.wall m else m)
      evaluated (codes "__run()") m
  ]

  started : ℕ → Result EngineErr M → H → Option (Result EngineErr Bytes) × H × List LogLine
  unfolding loop
  started n (err e) h = (some (err e), h, [])
  started n (ok m) h =
      let (e, r) = loop n 0 (record { sandbox = m; host = h; logs = [] }) in (e, r.host, r.logs)

  -- `InvokeWithLimits`, for at most `n` rounds of its loop.
  unfoldable pub invoke :
      ℕ → Bytes → Bytes → Limits → H → Option (Result EngineErr Bytes) × H × List LogLine
  unfolding booted started
  invoke n source input lim h = started n (booted source input lim) h
