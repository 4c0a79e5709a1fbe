-- ===== src/Host/Dispatcher/Scope.antt =====
-- What the calls of a tool can do to the store: whatever its operations and arguments, they stay in
-- its namespace and within its limit.
use mykeep_foundry.Host.Dispatcher.{
  with_args, blob_reply, blob_write, through_broker, through_vault, fetched, vault_reply, VaultReq,
  VaultResp, Codec, Config, Outcome, contains, value_bytes, Op, echo, kv_get_op, kv_set_op,
  kv_del_op, queue_push_op, queue_pop_op, cache_get_op, cache_set_op, blob_put_op, blob_get_op,
  http_fetch, vault_fetch, other_op, op_of, dispatch, call,
}
use mykeep_foundry.Prelude.{
  Bool-cases, Bytes, Option, Result, String, [], arith, err, inl, inr, length, none, ok, refl, some,
  ℕ, ◌+◌, ◌∷◌, ◌≡◌, ◌≤◌,
}
use mykeep_foundry.Store.State.{Db, StoreErr, Env, Store}
use mykeep_foundry.Store.Queue.{queue_push, queue_pop}
use mykeep_foundry.Store.Kv.{kv_set, kv_del}
use mykeep_foundry.Store.Cache.{cache_set, cache_get}
use mykeep_foundry.Store.Blob.{blob_put}
use mykeep_foundry.Prelude.Int.{ℤ}
use mykeep_foundry.Host.Broker.{FetchResp, FetchErr, Exchange, Net, Broker}

-- A value that is decoded from the arguments is no longer than they are.
pub record IsShort (json : Codec) : Type 0 where
  pub key_value :
      (args : Bytes) (k : String) (v : Bytes)
      → json.key_value_arg args ≡ some (k, v)
      → length v ≤ length args
  pub name_msg :
      (args : Bytes) (k : String) (v : Bytes)
      → json.name_msg_arg args ≡ some (k, v)
      → length v ≤ length args
  pub cache :
      (args : Bytes) (k : String) (v : Bytes) (ttl : ℤ)
      → json.cache_arg args ≡ some (k, v, ttl)
      → length v ≤ length args
  pub blob :
      (args : Bytes) (k : String) (text raw : Bytes)
      → json.blob_arg args ≡ some (k, text)
      → json.base64_decode text ≡ some raw
      → length raw ≤ length args

-- A property of the database that every write in the namespace keeps, of at most `n` bytes.
pub record Keeps (P : Db → Type 0) (env : Env) (ns : String) (n : ℕ) : Type 0 where
  pub kv_sets :
      (key : String) (val : Bytes) (s : Store)
      → length val ≤ n
      → P s.db
      → P (kv_set env ns key val s).1.db
  pub kv_dels : (key : String) (s : Store) → P s.db → P (kv_del env ns key s).1.db
  pub pushes :
      (name : String) (msg : Bytes) (s : Store)
      → length msg ≤ n
      → P s.db
      → P (queue_push env ns name msg s).1.db
  pub pops : (name : String) (s : Store) → P s.db → P (queue_pop env ns name s).1.db
  pub cache_sets :
      (key : String) (val : Bytes) (ttl : ℤ) (s : Store)
      → length val ≤ n
      → P s.db
      → P (cache_set env ns key val ttl s).1.db
  pub cache_gets : (key : String) (s : Store) → P s.db → P (cache_get env ns key s).1.db
  pub blob_puts :
      (name : String) (val : Bytes) (s : Store)
      → length val ≤ n
      → P s.db
      → P (blob_put env ns name val s).1.db

value_bytes-le : (v : Bytes) → length (value_bytes v) ≤ length v + 4
unfolding value_bytes
value_bytes-le [] = omega arith
value_bytes-le (b ∷ bs) = omega arith

with_args_rule {ℓ} :
    {A : Type ℓ} (P : Db → Type 0) (o : Option A) (s : Store) (body : A → Outcome)
    → P s.db
    → ((a : A) → o ≡ some a → P (body a).store.db)
    → P (with_args o s body).store.db
unfolding with_args
with_args_rule P none s body before after = before
with_args_rule P (some a) s body before after = after a refl

module _ (json : Codec) (net : Net) (cfg : Config) (env : Env) (P : Db → Type 0) where
  fetched-keeps :
      (r : Option Exchange × Result FetchErr FetchResp) (s : Store)
      → P s.db
      → P (fetched json net cfg env r s).store.db
  unfolding fetched
  fetched-keeps (x, ok resp) s h = h
  fetched-keeps (x, err e) s h = h

  broker-keeps :
      (b : Option Broker) (args : Bytes) (s : Store)
      → P s.db
      → P (through_broker json net cfg env b args s).store.db
  unfolding through_broker
  broker-keeps none args s h = h
  broker-keeps (some b) args s h =
      with_args_rule P (json.fetch_arg args) s _ h (λ req _. fetched-keeps _ s h)

  vault_reply-keeps :
      (req : VaultReq) (r : Option VaultResp) (s : Store)
      → P s.db
      → P (vault_reply json net cfg env req r s).store.db
  unfolding vault_reply
  vault_reply-keeps req none s h = h
  vault_reply-keeps req (some resp) s h = h

  vault-keeps :
      (f : Option (VaultReq → Option VaultResp)) (args : Bytes) (s : Store)
      → P s.db
      → P (through_vault json net cfg env f args s).store.db
  unfolding through_vault
  vault-keeps none args s h = h
  vault-keeps (some fill) args s h = with_args_rule P (json.vault_arg args) s _ h λ req _.
      elim (Bool-cases (contains cfg.vault_creds req.credential)) [
        | inl e ↦ rw e (vault_reply-keeps req (fill req) s h)
        | inr e ↦ rw e h
      ]

  blob_reply-keeps :
      (r : Result StoreErr (Option Bytes)) (s : Store)
      → P s.db
      → P (blob_reply json net cfg env r s).store.db
  unfolding blob_reply
  blob_reply-keeps (ok none) s h = h
  blob_reply-keeps (ok (some v)) s h = h
  blob_reply-keeps (err e) s h = h

  module _ (short : IsShort json) (args : Bytes)
      (keeps : Keeps P env cfg.namespace (length args + 4)) where
    blob_write-keeps :
        (name : String) (raw : Option Bytes) (s : Store)
        → ((v : Bytes) → raw ≡ some v → length v ≤ length args)
        → P s.db
        → P (blob_write json net cfg env name raw s).store.db
    unfolding blob_write
    blob_write-keeps name none s le h = h
    blob_write-keeps name (some v) s le h = keeps.blob_puts name v s (omega (arith, le v refl)) h

    -- One call keeps what every write in its namespace keeps.
    dispatch-keeps :
        (op : Op) (s : Store) → P s.db → P (dispatch json net cfg env op args s).store.db
    unfolding dispatch
    dispatch-keeps echo s h = h
    dispatch-keeps kv_get_op s h = with_args_rule P (json.key_arg args) s _ h (λ key _. h)
    dispatch-keeps kv_set_op s h = with_args_rule P (json.key_value_arg args) s _ h λ (key, v) e.
        keeps.kv_sets key (value_bytes v) s
          (omega (arith, value_bytes-le v, short.key_value args key v e)) h
    dispatch-keeps kv_del_op s h =
        with_args_rule P (json.key_arg args) s _ h (λ key _. keeps.kv_dels key s h)
    dispatch-keeps queue_push_op s h =
        with_args_rule P (json.name_msg_arg args) s _ h λ (name, v) e.
          keeps.pushes name (value_bytes v) s
            (omega (arith, value_bytes-le v, short.name_msg args name v e)) h
    dispatch-keeps queue_pop_op s h =
        with_args_rule P (json.name_arg args) s _ h (λ name _. keeps.pops name s h)
    dispatch-keeps cache_get_op s h =
        with_args_rule P (json.key_arg args) s _ h (λ key _. keeps.cache_gets key s h)
    dispatch-keeps cache_set_op s h =
        with_args_rule P (json.cache_arg args) s _ h λ (key, v, ttl) e.
          keeps.cache_sets key (value_bytes v) ttl s
            (omega (arith, value_bytes-le v, short.cache args key v ttl e)) h
    dispatch-keeps blob_put_op s h = with_args_rule P (json.blob_arg args) s _ h λ (name, text) e.
        blob_write-keeps name (json.base64_decode text) s
          (λ raw d. short.blob args name text raw e d) h
    dispatch-keeps blob_get_op s h =
        with_args_rule P (json.name_arg args) s _ h (λ name _. blob_reply-keeps _ s h)
    dispatch-keeps http_fetch s h = broker-keeps cfg.broker args s h
    dispatch-keeps vault_fetch s h = vault-keeps cfg.vault args s h
    dispatch-keeps other_op s h = h

    pub call-keeps :
        (op : String) (s : Store) → P s.db → P (call json net cfg env op args s).store.db
    unfolding call
    call-keeps op s h = dispatch-keeps (op_of op) s h
