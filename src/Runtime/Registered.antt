-- ===== src/Runtime/Registered.antt =====
-- A run against the tables of tools and grants.
use mykeep_foundry.Runtime.{with_quota, allowed, run_as, Site, Runtime, config_of, run}
use mykeep_foundry.Prelude.{
  All-All, Bool-cases, Bytes, Result-cases, String, inl, inr, length, refl, subst, sym, ℕ, ◌+◌, ◌∙◌,
  ◌≡◌,
}
use mykeep_foundry.Store.State.{Db, quota_upsert, Env, Store}
use mykeep_foundry.Store.Quota.{set_quota, put_limit}
use mykeep_foundry.Store.Queue.{enqueue}
use mykeep_foundry.Store.Cases.{
  exec_cases, kv_set_cases, kv_del_cases, cache_set_cases, cache_get_cases, blob_put_cases,
  queue_push_cases, queue_pop_cases,
}
use mykeep_foundry.Runtime.Confined.{execute-calls}
use mykeep_foundry.Registry.Manifest.{Grant}
use mykeep_foundry.Prelude.Int.{ℤ, pos, ltb_ℤ}
use mykeep_foundry.Host.Dispatcher.Use.{calls_rule}
use mykeep_foundry.Host.Dispatcher.Scope.{IsShort, Keeps}
use mykeep_foundry.Engine.{Sandbox}

-- The same tools and the same grants in both databases.
pub record SameTools (old new : Db) : Type 0 where
  pub tools : new.tools ≡ old.tools
  pub grants : new.grants ≡ old.grants

pub SameTools-refl : (db : Db) → SameTools db db
SameTools-refl db = record { tools = refl; grants = refl }

-- No call of the store that a tool can reach writes either table.
SameTools-Keeps : (base : Db) (env : Env) (ns : String) (n : ℕ) → Keeps (SameTools base) env ns n
SameTools-Keeps base env ns n = record {
  kv_sets = λ key val s _ h.
      kv_set_cases (SameTools base) env ns key val s h (λ _. same_tables h refl refl);
  kv_dels = λ key s h. kv_del_cases (SameTools base) env ns key s h (same_tables h refl refl);
  pushes = λ name msg s _ h.
      queue_push_cases (SameTools base) env ns name msg s h
        (λ _. unfold enqueue in same_tables h refl refl);
  pops = λ name s h.
      queue_pop_cases (SameTools base) env ns name s h (λ m rest e. same_tables h refl refl);
  cache_sets = λ key val ttl s _ h.
      cache_set_cases (SameTools base) env ns key val ttl s h (λ _. same_tables h refl refl);
  cache_gets = λ key s h. cache_get_cases (SameTools base) env ns key s h (same_tables h refl refl);
  blob_puts = λ name val s _ h.
      blob_put_cases (SameTools base) env ns name val s h (λ _. same_tables h refl refl);
}
  where
    same_tables :
        {old new : Db}
        → SameTools base old
        → new.tools ≡ old.tools
        → new.grants ≡ old.grants
        → SameTools base new
    same_tables h p q = record { tools = p ∙ h.tools; grants = q ∙ h.grants }

set_quota-SameTools :
    (env : Env) (ns : String) (l : ℤ) (s : Store) → SameTools s.db (set_quota env ns l s).1.db
unfolding set_quota
set_quota-SameTools env ns l s =
    exec_cases (SameTools s.db) env quota_upsert
      (λ db. record db { quota = put_limit ns l db.quota }) s (SameTools-refl s.db)
      (record { tools = refl; grants = refl })

module _ {M : Type 0} (vm : Sandbox M) (rt : Runtime) (env later : Env) where
  with_quota-SameTools :
      (g : Grant) (s : Store) → SameTools s.db (with_quota vm rt env later g s).1.db
  unfolding with_quota
  with_quota-SameTools g s = elim (Bool-cases (ltb_ℤ (pos 0) g.quota_bytes)) [
    | inl e ↦ rw e (set_quota-SameTools later g.namespace g.quota_bytes s)
    | inr e ↦ rw e (SameTools-refl s.db)
  ]

  -- A run changes neither the tools that are installed nor the grants, whatever the tool does. (A
  -- decoded value is no longer than the arguments.)
  pub run-SameTools :
      (n : ℕ) (name : String) (input : Bytes) (s : Store)
      → IsShort rt.codec
      → SameTools s.db (run vm rt env later n name input s).site.0.db
  unfolding run
  run-SameTools n name input s short = elim (Result-cases (allowed vm rt env later name s)) [
    | inl ((t, g), e) ↦
        let (cs, made) =
          execute-calls vm rt env later n t g input (with_quota vm rt env later g s) in
        rw e (
          unfold run_as in
          subst (λ (x : Site). SameTools s.db x.0.db) (sym made)
            (calls_rule rt.codec rt.net (config_of rt g) (SameTools s.db) cs _ short
              (All-All (λ c. SameTools-Keeps s.db c.0 _ (length c.2 + 4)) cs)
              (with_quota-SameTools g s)))
    | inr (x, e) ↦ rw e (unfold run_as in SameTools-refl s.db)
  ]
