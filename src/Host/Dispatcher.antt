-- ===== src/Host/Dispatcher.antt =====
-- internal/host/host.go: `Dispatcher.Call`, the one door between a tool and what it may use.
-- `encoding/json`, `encoding/base64` and the vault behind its interface are parameters.
pub mod Steps
pub mod Scope
pub mod Use
pub mod Effects
use mykeep_foundry.Prelude.{
  Bool, Bytes, List, Option, Result, String, [], err, false, if◌then◌else◌, none, not, ok, some, ℕ,
  ◌++◌, ◌==◌, ◌||◌, ◌∷◌,
}
use mykeep_foundry.Registry.Tools.{list}
use mykeep_foundry.Store.State.{StoreErr, Env, Store}
use mykeep_foundry.Store.Queue.{queue_push, queue_pop}
use mykeep_foundry.Store.Kv.{kv_set, kv_get, kv_del}
use mykeep_foundry.Store.Cache.{cache_set, cache_get}
use mykeep_foundry.Store.Blob.{blob_put, blob_get}
use mykeep_foundry.Prelude.Int.{ℤ}
use mykeep_foundry.Host.Text.{Text, codes}
use mykeep_foundry.Host.Broker.{FetchReq, FetchResp, FetchErr, Exchange, Net, Broker, fetch}

-- `VaultReq`, with the credential beside it as `vault.fetch` takes them.
pub record VaultReq : Type 0 where
  pub credential : String
  pub method : String
  pub url : String
  pub headers : List (String × String)
  pub body : String

-- `VaultResp`
pub record VaultResp : Type 0 where
  pub status : ℕ
  pub headers : List (String × String)
  pub body : String

pub data CallErr : Type 0 where
  bad_args bad_base64 no_network no_vault unknown_op : CallErr
  credential_not_granted : String → CallErr
  vault_failed : CallErr
  of_store : StoreErr → CallErr
  of_fetch : FetchErr → CallErr

-- What the dispatcher uses of JSON and base64: `json.Unmarshal` into each of its argument structs
-- (none on an error) and `json.Marshal` of its results. The time to live comes as the duration that
-- `time.Duration(a.TTLSeconds*float64(time.Second))` is.
pub record Codec : Type 0 where
  pub key_arg : Bytes → Option String
  pub key_value_arg : Bytes → Option (String × Bytes)
  pub name_arg : Bytes → Option String
  pub name_msg_arg : Bytes → Option (String × Bytes)
  pub cache_arg : Bytes → Option (String × Bytes × ℤ)
  pub blob_arg : Bytes → Option (String × Bytes)
  pub fetch_arg : Bytes → Option FetchReq
  pub vault_arg : Bytes → Option VaultReq
  pub base64_decode : Bytes → Option Bytes
  pub base64_string : Bytes → Bytes
  pub fetch_json : FetchResp → Bytes
  pub vault_json : VaultResp → Bytes

-- `Config`, less the store: the grant of one invocation and the brokers; no vault is none.
pub record Config : Type 0 where
  pub namespace : String
  pub allow_hosts : List Text
  pub vault_creds : List String
  pub broker : Option Broker
  pub vault : Option (VaultReq → Option VaultResp)

-- What a call does outside the store: a request that it hands to the transport, or one that it hands to
-- the vault.
pub data Effect : Type 0 where
  requested : Exchange → Effect
  vaulted : VaultReq → Effect

-- A call's result, the store after it, and its effects.
pub record Outcome : Type 0 where
  pub result : Result CallErr Bytes
  pub store : Store
  pub effects : List Effect

-- `jnull`
abbrev pub jnull : Bytes
jnull = codes "null"

-- `contains`
unfoldable pub contains : List String → String → Bool
contains [] v = false
contains (s ∷ list) v = s == v || contains list v

-- `valueBytes`
unfoldable pub value_bytes : Bytes → Bytes
value_bytes [] = jnull
value_bytes (b ∷ bs) = b ∷ bs

-- `orNull` of a value that may be absent, or the store's error.
abbrev or_null : Result StoreErr (Option Bytes) → Result CallErr Bytes
or_null (ok none) = ok jnull
or_null (ok (some v)) = ok v
or_null (err e) = err (of_store e)

abbrev null_or : Result StoreErr (Unit {0}) → Result CallErr Bytes
null_or (ok _) = ok jnull
null_or (err e) = err (of_store e)

-- The operations, by the texts of the `switch`.
pub data Op : Type 0 where
  echo kv_get_op kv_set_op kv_del_op queue_push_op queue_pop_op cache_get_op cache_set_op : Op
  blob_put_op blob_get_op http_fetch vault_fetch other_op : Op

unfoldable pub op_of : String → Op
op_of s =
    if s == "echo"
    then echo
    else if s == "kv.get"
    then kv_get_op
    else if s == "kv.set"
    then kv_set_op
    else if s == "kv.del"
    then kv_del_op
    else if s == "queue.push"
    then queue_push_op
    else if s == "queue.pop"
    then queue_pop_op
    else if s == "cache.get"
    then cache_get_op
    else if s == "cache.set"
    then cache_set_op
    else if s == "blob.put"
    then blob_put_op
    else if s == "blob.get"
    then blob_get_op
    else if s == "http.fetch"
    then http_fetch
    else if s == "vault.fetch"
    then vault_fetch
    else other_op

failed : CallErr → Store → Outcome
failed e s = record { result = err e; store = s; effects = [] }

reading : Result StoreErr (Option Bytes) → Store → Outcome
reading r s = record { result = or_null r; store = s; effects = [] }

writing : Result StoreErr (Unit {0}) × Store → Outcome
writing (r, s) = record { result = null_or r; store = s; effects = [] }

taking : Result StoreErr (Option Bytes) × Store → Outcome
taking (r, s) = record { result = or_null r; store = s; effects = [] }

-- `json.Unmarshal(args, &a)`, and the case's body where it works.
with_args {ℓ} : {A : Type ℓ} → Option A → Store → (A → Outcome) → Outcome
unfolding failed
with_args none s body = failed bad_args s
with_args (some a) s body = body a

module _ (json : Codec) (net : Net) (cfg : Config) (env : Env) where
  blob_reply : Result StoreErr (Option Bytes) → Store → Outcome
  unfolding failed
  blob_reply (ok none) s = record { result = ok jnull; store = s; effects = [] }
  blob_reply (ok (some v)) s = record {
    result = ok (json.base64_string v);
    store = s;
    effects = [];
  }
  blob_reply (err e) s = failed (of_store e) s

  blob_write : String → Option Bytes → Store → Outcome
  unfolding failed writing
  blob_write name none s = failed bad_base64 s
  blob_write name (some raw) s = writing (blob_put env cfg.namespace name raw s)

  asked : Option Exchange → List Effect
  asked none = []
  asked (some x) = requested x ∷ []

  fetched : Option Exchange × Result FetchErr FetchResp → Store → Outcome
  unfolding asked
  fetched (x, ok resp) s = record {
    result = ok (json.fetch_json resp);
    store = s;
    effects = asked x;
  }
  fetched (x, err e) s = record { result = err (of_fetch e); store = s; effects = asked x }

  through_broker : Option Broker → Bytes → Store → Outcome
  unfolding failed fetched with_args
  through_broker none args s = failed no_network s
  through_broker (some b) args s =
      with_args (json.fetch_arg args) s (λ req. fetched (fetch net b cfg.allow_hosts req) s)

  vault_reply : VaultReq → Option VaultResp → Store → Outcome
  vault_reply req none s = record {
    result = err vault_failed;
    store = s;
    effects = vaulted req ∷ [];
  }
  vault_reply req (some resp) s = record {
    result = ok (json.vault_json resp);
    store = s;
    effects = vaulted req ∷ [];
  }

  through_vault : Option (VaultReq → Option VaultResp) → Bytes → Store → Outcome
  unfolding failed vault_reply with_args contains
  through_vault none args s = failed no_vault s
  through_vault (some fill) args s = with_args (json.vault_arg args) s λ req.
      if not (contains cfg.vault_creds req.credential)
      then failed (credential_not_granted req.credential) s
      else vault_reply req (fill req) s

  -- The `switch` of `Call`.
  unfoldable pub dispatch : Op → Bytes → Store → Outcome
  unfolding failed reading writing taking with_args blob_reply blob_write through_broker
      through_vault value_bytes
  dispatch echo args s = record { result = ok args; store = s; effects = [] }
  dispatch kv_get_op args s =
      with_args (json.key_arg args) s λ key. reading (kv_get env cfg.namespace key s) s
  dispatch kv_set_op args s =
      with_args (json.key_value_arg args) s
        λ (key, value). writing (kv_set env cfg.namespace key (value_bytes value) s)
  dispatch kv_del_op args s =
      with_args (json.key_arg args) s λ key. writing (kv_del env cfg.namespace key s)
  dispatch queue_push_op args s =
      with_args (json.name_msg_arg args) s
        λ (name, msg). writing (queue_push env cfg.namespace name (value_bytes msg) s)
  dispatch queue_pop_op args s =
      with_args (json.name_arg args) s λ name. taking (queue_pop env cfg.namespace name s)
  dispatch cache_get_op args s =
      with_args (json.key_arg args) s λ key. taking (cache_get env cfg.namespace key s)
  dispatch cache_set_op args s =
      with_args (json.cache_arg args) s
        λ (key, value, ttl). writing (cache_set env cfg.namespace key (value_bytes value) ttl s)
  dispatch blob_put_op args s =
      with_args (json.blob_arg args) s λ (name, text). blob_write name (json.base64_decode text) s
  dispatch blob_get_op args s =
      with_args (json.name_arg args) s λ name. blob_reply (blob_get env cfg.namespace name s) s
  dispatch http_fetch args s = through_broker cfg.broker args s
  dispatch vault_fetch args s = through_vault cfg.vault args s
  dispatch other_op args s = failed unknown_op s

  -- `Dispatcher.Call`
  unfoldable pub call : String → Bytes → Store → Outcome
  unfolding dispatch op_of
  call op args s = dispatch (op_of op) args s

-- The host calls of one invocation, each with what the machine decides for it: the store that they
-- leave, and their effects in order.
module _ (json : Codec) (net : Net) (cfg : Config) where
  unfoldable pub calls : List (Env × String × Bytes) → Store → Store × List Effect
  calls [] s = (s, [])
  calls ((env, op, args) ∷ rest) s =
      let o = call json net cfg env op args s in
      let after = calls rest o.store in (after.0, o.effects ++ after.1)
