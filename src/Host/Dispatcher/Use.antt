-- ===== src/Host/Dispatcher/Use.antt =====
-- A whole invocation: the host calls of a tool in a row.
use mykeep_foundry.Host.Dispatcher.{Codec, Config, calls}
use mykeep_foundry.Prelude.{
  All, All-All, All-map, Bytes, List, String, [], arith, length, ℕ, ◌+◌, ◌∷◌, ◌≢◌, ◌≤◌,
}
use mykeep_foundry.Store.State.{Db, Env, Store}
use mykeep_foundry.Store.Ordered.{IsOrdered, queue_push-IsOrdered, queue_pop-IsOrdered}
use mykeep_foundry.Store.Limit.{
  IsWithin, IsCounted, kv_set-IsWithin, kv_del-IsWithin, cache_set-IsWithin, cache_get-IsWithin,
  blob_put-IsWithin, queue_push-IsWithin, queue_pop-IsWithin,
}
use mykeep_foundry.Store.Frame.{
  SameNs, SameNs-refl, SameNs-trans, kv_set-SameNs, kv_del-SameNs, cache_set-SameNs,
  cache_get-SameNs, blob_put-SameNs, queue_push-SameNs, queue_pop-SameNs,
}
use mykeep_foundry.Store.Cases.{
  kv_set_cases, kv_del_cases, cache_set_cases, cache_get_cases, blob_put_cases,
}
use mykeep_foundry.Host.Dispatcher.Scope.{IsShort, Keeps, call-keeps}
use mykeep_foundry.Host.Broker.{Net}

-- The database as the invocation found it is still what another namespace sees, in order.
abbrev Elsewhere : String → Db → Db → Type 0
Elsewhere ms base db = SameNs ms base db × IsOrdered db

Elsewhere-Keeps :
    (ns ms : String) (base : Db) (env : Env) (n : ℕ) → ns ≢ ms → Keeps (Elsewhere ms base) env ns n
Elsewhere-Keeps ns ms base env n other = record {
  kv_sets = λ key val s _ h. (
    SameNs-trans h.0 (kv_set-SameNs ns ms other env key val s),
    kv_set_cases IsOrdered env ns key val s h.1 (λ _. h.1),
  );
  kv_dels = λ key s h. (
    SameNs-trans h.0 (kv_del-SameNs ns ms other env key s),
    kv_del_cases IsOrdered env ns key s h.1 h.1,
  );
  pushes = λ name msg s _ h. (
    SameNs-trans h.0 (queue_push-SameNs ns ms other env name msg s),
    queue_push-IsOrdered env ns name msg s h.1,
  );
  pops = λ name s h. (
    SameNs-trans h.0 (queue_pop-SameNs ns ms other env name s h.1),
    queue_pop-IsOrdered env ns name s h.1,
  );
  cache_sets = λ key val ttl s _ h. (
    SameNs-trans h.0 (cache_set-SameNs ns ms other env key val ttl s),
    cache_set_cases IsOrdered env ns key val ttl s h.1 (λ _. h.1),
  );
  cache_gets = λ key s h. (
    SameNs-trans h.0 (cache_get-SameNs ns ms other env key s),
    cache_get_cases IsOrdered env ns key s h.1 h.1,
  );
  blob_puts = λ name val s _ h. (
    SameNs-trans h.0 (blob_put-SameNs ns ms other env name val s),
    blob_put_cases IsOrdered env ns name val s h.1 (λ _. h.1),
  );
}

-- The namespace within its limit, and the queue in order.
abbrev Limited : String → ℕ → Db → Type 0
Limited ns l db = IsWithin ns l db × IsOrdered db

IsCounted-mono : (env : Env) (l m n : ℕ) → m ≤ n → IsCounted env l n → IsCounted env l m
IsCounted-mono env l m n le c = record { fits = omega (arith, c.fits); read = c.read }

Limited-Keeps :
    (ns : String) (l : ℕ) (env : Env) (n : ℕ) → IsCounted env l n → Keeps (Limited ns l) env ns n
Limited-Keeps ns l env n c = record {
  kv_sets = λ key val s le h. (
    kv_set-IsWithin ns l env key val s (IsCounted-mono env l (length val) n le c) h.0,
    kv_set_cases IsOrdered env ns key val s h.1 (λ _. h.1),
  );
  kv_dels =
      λ key s h. (kv_del-IsWithin ns l env key s h.0, kv_del_cases IsOrdered env ns key s h.1 h.1);
  pushes = λ name msg s le h. (
    queue_push-IsWithin ns l env name msg s (IsCounted-mono env l (length msg) n le c) h.0,
    queue_push-IsOrdered env ns name msg s h.1,
  );
  pops = λ name s h.
      (queue_pop-IsWithin ns l env name s h.1 h.0, queue_pop-IsOrdered env ns name s h.1);
  cache_sets = λ key val ttl s le h. (
    cache_set-IsWithin ns l env key val ttl s (IsCounted-mono env l (length val) n le c) h.0,
    cache_set_cases IsOrdered env ns key val ttl s h.1 (λ _. h.1),
  );
  cache_gets = λ key s h.
      (cache_get-IsWithin ns l env key s h.0, cache_get_cases IsOrdered env ns key s h.1 h.1);
  blob_puts = λ name val s le h. (
    blob_put-IsWithin ns l env name val s (IsCounted-mono env l (length val) n le c) h.0,
    blob_put_cases IsOrdered env ns name val s h.1 (λ _. h.1),
  );
}

module _ (json : Codec) (net : Net) (cfg : Config) where
  pub calls_rule :
      (P : Db → Type 0) (cs : List (Env × String × Bytes)) (s : Store)
      → IsShort json
      → All (λ c. Keeps P c.0 cfg.namespace (length c.2 + 4)) cs
      → P s.db
      → P (calls json net cfg cs s).0.db
  unfolding calls
  calls_rule P [] s short keeps h = h
  calls_rule P ((env, op, args) ∷ cs) s short keeps h =
      calls_rule P cs _ short keeps.1 (call-keeps json net cfg env P short args keeps.0 op s h)

  -- Whatever calls a tool makes, every namespace but its own is at the end as it was: its keys,
  -- cache entries, blobs, queues, limit and bytes. (The queue's ids are in order at the start, and a
  -- decoded value is no longer than the arguments.)
  pub calls-SameNs :
      (ms : String) (cs : List (Env × String × Bytes)) (s : Store)
      → IsShort json
      → cfg.namespace ≢ ms
      → IsOrdered s.db
      → SameNs ms s.db (calls json net cfg cs s).0.db
  calls-SameNs ms cs s short other a =
      (calls_rule (Elsewhere ms s.db) cs s short
        (All-All (λ c. Elsewhere-Keeps cfg.namespace ms s.db c.0 (length c.2 + 4) other) cs)
        (SameNs-refl ms s.db, a)).0

  -- A tool whose namespace has a limit, and is within it, is within it after any calls, if at each
  -- of them the driver reads the limit and the byte counts fit an int64. (The queue's ids are in
  -- order at the start, and a decoded value is no longer than the arguments.)
  pub calls-IsWithin :
      (l : ℕ) (cs : List (Env × String × Bytes)) (s : Store)
      → IsShort json
      → All (λ c. IsCounted c.0 l (length c.2 + 4)) cs
      → IsOrdered s.db
      → IsWithin cfg.namespace l s.db
      → IsWithin cfg.namespace l (calls json net cfg cs s).0.db
  calls-IsWithin l cs s short counted a w =
      (calls_rule (Limited cfg.namespace l) cs s short
        (All-map (λ c k. Limited-Keeps cfg.namespace l c.0 (length c.2 + 4) k) cs counted) (w, a)).0
