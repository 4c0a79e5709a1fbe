-- ===== src/Runtime/Confined.antt =====
-- A run is confined to its grant.
use mykeep_foundry.Runtime.{
  with_quota, execute, allowed, run_as, ran, Site, Runtime, host_func, config_of, run,
}
use mathlib.Core.List.{append_assoc, append-nil}
use mykeep_foundry.Prelude.{
  >>=-eq-ok, All, All-map, Bool-cases, Bytes, In, List, Option, Result, Result-cases, String, [],
  ap, arith, eq_iff, err, inl, inr, map, none, ok, refl, some, subst, sym, true, ℕ, ◌++◌, ◌==◌, ◌∙◌,
  ◌∷◌, ◌≡◌, ◌≢◌, ◌⊎◌,
}
use mykeep_foundry.Host.Text.{codes}
use mykeep_foundry.Host.Broker.Guard.{Guarded}
use mykeep_foundry.Store.Quota.Bounds.{total}
use mykeep_foundry.Store.State.{quota_upsert, StoreErr, Env, Store, mark_dirty, exec, Db}
use mykeep_foundry.Store.Quota.{limit_of, put_limit, set_quota}
use mykeep_foundry.Store.Ordered.{IsOrdered}
use mykeep_foundry.Store.Frame.{SameNs, SameNs-refl, SameNs-trans}
use mykeep_foundry.Registry.Tools.{Tool, grant, get}
use mykeep_foundry.Registry.Manifest.{Grant}
use mykeep_foundry.Prelude.Int.{ℤ, pos, ltb_ℤ}
use mykeep_foundry.Host.Dispatcher.Use.{calls-SameNs}
use mykeep_foundry.Host.Dispatcher.Effects.{IsGranted, calls-IsGranted}
use mykeep_foundry.Host.Dispatcher.Scope.{IsShort}
use mykeep_foundry.Host.Dispatcher.{
  Codec, Config, Effect, call, calls, requested, vaulted, contains,
}
use mykeep_foundry.Host.Broker.{Net, FetchReq, Broker}
use mykeep_foundry.Engine.Served.{serve, invoke-Serves}
use mykeep_foundry.Engine.{LogLine, EngineErr, Sandbox}

module _ (json : Codec) (net : Net) (cfg : Config) where
  serve-calls :
      (cs : List (Env × String × Bytes)) (s : Store) (es : List Effect)
      → serve (host_func json net cfg) cs (s, es)
        ≡ ((calls json net cfg cs s).0, es ++ (calls json net cfg cs s).1)
  unfolding host_func calls
  serve-calls [] s es = ap (λ (x : List Effect). (s, x)) (sym (append-nil es))
  serve-calls ((env, op, args) ∷ cs) s es =
      let o = call json net cfg env op args s in
      serve-calls cs o.store (es ++ o.effects)
      ∙ ap (λ (x : List Effect). ((calls json net cfg cs o.store).0, x))
          (append_assoc es o.effects (calls json net cfg cs o.store).1)

-- An effect that a grant covers: a request that the broker guards under the hosts of the grant, or a
-- use of the vault with a credential of the grant.
abbrev pub IsCovered : Runtime → Grant → Effect → Type 0
IsCovered rt g (requested x) =
    (b : Broker) × (req : FetchReq) × (rt.broker ≡ some b)
    × Guarded rt.net b (map codes g.hosts) req x
IsCovered rt g (vaulted req) = In req.credential g.vault_creds

contains-In : (xs : List String) (v : String) → contains xs v ≡ true → In v xs
unfolding contains
contains-In [] v h = cc
contains-In (x ∷ xs) v h = elim (Bool-cases (x == v)) [
  | inl e ↦ inl (sym ((eq_iff x v).0 e))
  | inr e ↦ inr (contains-In xs v (rw e at h))
]

granted-IsCovered :
    (rt : Runtime) (g : Grant) (e : Effect) → IsGranted rt.net (config_of rt g) e → IsCovered rt g e
unfolding config_of
granted-IsCovered rt g (requested x) h = h
granted-IsCovered rt g (vaulted req) h = contains-In g.vault_creds req.credential h

limit_of-put_limit_ne :
    (ns ms : String) (l : ℤ) (t : List (String × ℤ))
    → ns ≢ ms
    → limit_of ms (put_limit ns l t) ≡ limit_of ms t
unfolding limit_of put_limit
limit_of-put_limit_ne ns ms l [] other = ground (arith, eq_iff ns ms)
limit_of-put_limit_ne ns ms l ((m, k) ∷ t) other =
    ground (arith, eq_iff ns ms, eq_iff m ns, eq_iff m ms, limit_of-put_limit_ne ns ms l t other)

mark_dirty-db : (env : Env) (s : Store) → (mark_dirty env s).db ≡ s.db
unfolding mark_dirty
mark_dirty-db env s = ground arith

-- The quota of a namespace is no other namespace's concern.
set_quota-keeps :
    (env : Env) (ns ms : String) (l : ℤ) (s : Store)
    → ns ≢ ms
    → IsOrdered s.db
    → SameNs ms s.db (set_quota env ns l s).1.db × IsOrdered (set_quota env ns l s).1.db
unfolding set_quota exec total
set_quota-keeps env ns ms l s other a = elim (Bool-cases (env.fails quota_upsert)) [
  | inl e ↦ rw e (SameNs-refl ms s.db, a)
  | inr e ↦
      let db = record s.db { quota = put_limit ns l s.db.quota } in
      rw e (
        subst (λ (d : Db). SameNs ms s.db d × IsOrdered d)
          (sym (mark_dirty-db env (record s { db = db })))
          (
            record {
              kv = λ key. refl;
              cache = λ key. refl;
              blob = λ name. refl;
              queue = λ name. refl;
              limit = limit_of-put_limit_ne ns ms l s.db.quota other;
              held = refl;
            },
            a,
          ))
]

module _ {M : Type 0} (vm : Sandbox M) (rt : Runtime) (env later : Env) where
  with_quota-keeps :
      (g : Grant) (ms : String) (s : Store)
      → g.namespace ≢ ms
      → IsOrdered s.db
      → SameNs ms s.db (with_quota vm rt env later g s).1.db
        × IsOrdered (with_quota vm rt env later g s).1.db
  unfolding with_quota
  with_quota-keeps g ms s other a = elim (Bool-cases (ltb_ℤ (pos 0) g.quota_bytes)) [
    | inl e ↦ rw e (set_quota-keeps later g.namespace ms g.quota_bytes s other a)
    | inr e ↦ rw e (SameNs-refl ms s.db, a)
  ]

  ran-site :
      (x : Option (Result EngineErr Bytes) × Site × List LogLine)
      → (ran vm rt env later x).site ≡ x.1
  unfolding ran
  ran-site (none, site, logs) = refl
  ran-site (some (ok v), site, logs) = refl
  ran-site (some (err e), site, logs) = refl

  -- What the tool does is a row of host calls under the configuration of the grant.
  pub execute-calls :
      (n : ℕ) (t : Tool) (g : Grant) (input : Bytes) (q : Result StoreErr (Unit {0}) × Store)
      → (cs : List (Env × String × Bytes)) × ((execute vm rt env later n t g input q).site
          ≡ calls rt.codec rt.net (config_of rt g) cs q.1)
  unfolding execute
  execute-calls n t g input (err e, s) = ([], unfold calls in refl)
  execute-calls n t g input (ok _, s) =
      let (cs, e) =
        invoke-Serves vm (host_func rt.codec rt.net (config_of rt g)) n t.source input
          (record { wall = g.wall; mem_pages = g.mem_pages }) (s, []) in
      (cs, ran-site _ ∙ e ∙ serve-calls rt.codec rt.net (config_of rt g) cs s [])

  allowed-grant :
      (name : String) (s : Store) {t : Tool} {g : Grant}
      → allowed vm rt env later name s ≡ ok (t, g)
      → grant rt.registry later name s ≡ ok g
  unfolding allowed
  allowed-grant name s {t} {g} h =
      let (u, _, h1) = >>=-eq-ok (get rt.registry env name s) _ h in
      let (k, found, same) = >>=-eq-ok (grant rt.registry later name s) _ h1 in
      found ∙ ap ok (ground arith)

  -- A run leaves the store as it was and does nothing outside it, or the tool has a current grant; then
  -- every request that the run handed to the transport, answered or not, went through the broker's guard
  -- to a host of that grant, and every use of the vault named a credential of it.
  pub run-IsGranted :
      (n : ℕ) (name : String) (input : Bytes) (s : Store)
      → ((run vm rt env later n name input s).site ≡ (s, []))
        ⊎ ((g : Grant) × (grant rt.registry later name s ≡ ok g)
            × All (IsCovered rt g) (run vm rt env later n name input s).site.1)
  unfolding run
  run-IsGranted n name input s = elim (Result-cases (allowed vm rt env later name s)) [
    | inl ((t, g), e) ↦
        let (cs, made) = execute-calls n t g input (with_quota vm rt env later g s) in
        inr (
          g,
          allowed-grant name s e,
          rw e (
              unfold run_as in
              subst (λ (x : Site). All (IsCovered rt g) x.1) (sym made)
                (All-map (granted-IsCovered rt g) _
                  (calls-IsGranted rt.codec rt.net (config_of rt g) cs _))),
        )
    | inr (x, e) ↦ inl (rw e (unfold run_as in refl))
  ]

  -- A run leaves every namespace as it was that is not its grant's. (The queue's ids are in order at
  -- the start, and a decoded value is no longer than the arguments.)
  pub run-SameNs :
      (n : ℕ) (name : String) (input : Bytes) (s : Store) (ms : String)
      → IsShort rt.codec
      → IsOrdered s.db
      → ((g : Grant) → grant rt.registry later name s ≡ ok g → g.namespace ≢ ms)
      → SameNs ms s.db (run vm rt env later n name input s).site.0.db
  unfolding run
  run-SameNs n name input s ms short a other =
      elim (Result-cases (allowed vm rt env later name s)) [
        | inl ((t, g), e) ↦
            let apart = other g (allowed-grant name s e) in
            let (cs, made) = execute-calls n t g input (with_quota vm rt env later g s) in
            let (same, ordered) = with_quota-keeps g ms s apart a in
            rw e (
              unfold run_as in
              subst (λ (x : Site). SameNs ms s.db x.0.db) (sym made)
                (SameNs-trans same (
                  calls-SameNs rt.codec rt.net (config_of rt g) ms cs _ short
                    (unfold config_of in apart) ordered)))
        | inr (x, e) ↦ rw e (unfold run_as in SameNs-refl ms s.db)
      ]
