-- ===== src/Engine/Served.antt =====
-- What a tool does through the loop: it makes host calls, one after the other, and nothing else.
use mykeep_foundry.Prelude.{
  Bool, Bool-cases, Bytes, List, Option, Result, String, [], ap, arith, err, inl, inr, none, ok,
  refl, some, subst, suc, sym, zero, ℕ, ◌++◌, ◌||◌, ◌∙◌, ◌∷◌, ◌≡◌, ◌⊎◌,
}
use mykeep_foundry.Store.State.{Env}
use mykeep_foundry.Host.Dispatcher.{CallErr}
use mykeep_foundry.Engine.{
  answered, frames, nudge, spin, after_frames, started, Frame, call_frame, log_frame, result_frame,
  error_frame, other_frame, Limits, EngineErr, Sandbox, Running, Turn, ended, again, round, loop,
  invoke,
}

module _ {H : Type 0} (host : Env → String → Bytes → H → Result CallErr Bytes × H) where
  -- The host after a row of calls.
  abbrev pub serve : List (Env × String × Bytes) → H → H
  serve [] h = h
  serve ((env, op, args) ∷ cs) h = serve cs (host env op args h).1

  -- The host came from one state to another by calls alone.
  abbrev pub Serves : H → H → Type 0
  Serves h h' = (cs : List (Env × String × Bytes)) × (h' ≡ serve cs h)

  serve-append :
      (cs ds : List (Env × String × Bytes)) (h : H) → serve (cs ++ ds) h ≡ serve ds (serve cs h)
  serve-append [] ds h = refl
  serve-append ((env, op, args) ∷ cs) ds h = serve-append cs ds (host env op args h).1

  Serves-trans : {a b c : H} → Serves a b → Serves b c → Serves a c
  Serves-trans {a} (cs, p) (ds, q) = (cs ++ ds, q ∙ ap (serve ds) p ∙ sym (serve-append cs ds a))

  Serves-refl : (h : H) → Serves h h
  Serves-refl h = ([], refl)

module _ {M H : Type 0} (vm : Sandbox M)
    (host : Env → String → Bytes → H → Result CallErr Bytes × H) where
  frames-Serves :
      (fs : List Frame) (r : Running M H) → Serves host r.host (frames vm host fs r).1.host
  unfolding frames answered
  frames-Serves [] r = Serves-refl host r.host
  frames-Serves (call_frame id op args ∷ fs) r =
      let a = answered vm host id op args r in
      let one : Serves host r.host a.1.host = ((vm.machine r.sandbox, op, args) ∷ [], refl) in
      elim (Bool-cases a.0) [
        | inl e ↦ rw e (Serves-trans host one (frames-Serves fs a.1))
        | inr e ↦ rw e one
      ]
  frames-Serves (log_frame level msg ∷ fs) r =
      frames-Serves fs (record r { logs = r.logs ++ record { level = level; msg = msg } ∷ [] })
  frames-Serves (result_frame v ∷ fs) r = Serves-refl host r.host
  frames-Serves (error_frame msg ∷ fs) r = Serves-refl host r.host
  frames-Serves (other_frame ∷ fs) r = frames-Serves fs r

  abbrev state_of : Turn M H → H
  state_of (ended e r) = r.host
  state_of (again spins r) = r.host

  nudge-state :
      (spins : ℕ) (worked : Bool) (r : Running M H)
      → state_of (nudge vm host spins worked r) ≡ r.host
  unfolding nudge
  nudge-state spins worked r = ground arith

  spin-state :
      (spins : ℕ) (progressed : Bool) (pending : Option Bool) (r : Running M H)
      → state_of (spin vm host spins progressed pending r) ≡ r.host
  unfolding spin
  spin-state spins progressed none r = refl
  spin-state spins progressed (some pending) r = elim (Bool-cases (pending || progressed)) [
    | inl e ↦ rw e refl
    | inr e ↦ rw e (nudge-state spins _ _)
  ]

  after_frames-state :
      (spins : ℕ) (progressed : Bool) (e : Option (Result EngineErr Bytes)) (r : Running M H)
      → state_of (after_frames vm host spins progressed e r) ≡ r.host
  unfolding after_frames
  after_frames-state spins progressed (some e) r = refl
  after_frames-state spins progressed none r = spin-state spins progressed _ _

  round-Serves :
      (spins : ℕ) (r : Running M H) → Serves host r.host (state_of (round vm host spins r))
  unfolding round
  round-Serves spins r = elim (Bool-cases (vm.expired r.sandbox)) [
    | inl e ↦ rw e (Serves-refl host r.host)
    | inr e ↦
        let (fs, m) = vm.take_frames r.sandbox in
        rw e (
          subst (Serves host r.host) (sym (after_frames-state spins _ _ _))
            (frames-Serves fs (record r { sandbox = m })))
  ]

  Turn-cases :
      (t : Turn M H)
      → ((e : Result EngineErr Bytes) × (r : Running M H) × (t ≡ ended e r))
        ⊎ ((spins : ℕ) × (r : Running M H) × (t ≡ again spins r))
  Turn-cases (ended e r) = inl (e, r, refl)
  Turn-cases (again spins r) = inr (spins, r, refl)

  loop-Serves : (n spins : ℕ) (r : Running M H) → Serves host r.host (loop vm host n spins r).1.host
  unfolding loop
  loop-Serves zero spins r = Serves-refl host r.host
  loop-Serves (suc n) spins r =
      let h = round-Serves spins r in
      elim (Turn-cases (round vm host spins r)) [
        | inl (e, q, t) ↦ rw (t, loop) (rw t at h)
        | inr (k, q, t) ↦ rw (t, loop) (Serves-trans host (rw t at h) (loop-Serves n k q))
      ]

  started-Serves :
      (n : ℕ) (m : Result EngineErr M) (h : H) → Serves host h (started vm host n m h).1
  unfolding started
  started-Serves n (err e) h = Serves-refl host h
  started-Serves n (ok m) h = loop-Serves n 0 (record { sandbox = m; host = h; logs = [] })

  -- However long it runs and however it ends, all that an invocation has done to the host's state
  -- is a row of host calls.
  pub invoke-Serves :
      (n : ℕ) (source input : Bytes) (lim : Limits) (h : H)
      → Serves host h (invoke vm host n source input lim h).1
  unfolding invoke
  invoke-Serves n source input lim h = started-Serves n _ h
