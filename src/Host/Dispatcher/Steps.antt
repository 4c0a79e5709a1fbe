-- ===== src/Host/Dispatcher/Steps.antt =====
-- internal/host/dispatcher.go against internal/store/store.go: the host calls of a run are steps of the
-- store among those of its flushes.
use mykeep_foundry.Prelude.{
  Bool-cases, Bytes, List, Option, Result, String, [], arith, err, inl, inr, length, none, ok, some,
  suc, ◌+◌, ◌<◌, ◌∷◌,
}
use mykeep_foundry.Store.Persist.Calls.{Moves-Reach}
use mykeep_foundry.Store.State.{Db, StoreErr, Env, Store}
use mykeep_foundry.Store.Persist.{World, Reach}
use mykeep_foundry.Store.Moves.{
  Moves, unmoved, kv_set-Moves, kv_del-Moves, queue_push-Moves, queue_pop-Moves, cache_set-Moves,
  cache_get-Moves, blob_put-Moves,
}
use mykeep_foundry.Secret.{Aead}
use mykeep_foundry.Prelude.Int.{u64_mod}
use mykeep_foundry.Host.Broker.{FetchResp, FetchErr, Exchange, Net, Broker}
use mykeep_foundry.Host.Dispatcher.{
  through_broker, fetched, with_args, through_vault, vault_reply, blob_reply, blob_write, contains,
  VaultReq, VaultResp, Codec, Config, Outcome, value_bytes, Op, echo, kv_get_op, kv_set_op,
  kv_del_op, queue_push_op, queue_pop_op, cache_get_op, cache_set_op, blob_put_op, blob_get_op,
  http_fetch, vault_fetch, other_op, op_of, dispatch, call, calls,
}

with_args-Moves {ℓ} :
    {A : Type ℓ} (env : Env) (o : Option A) (s : Store) (body : A → Outcome)
    → ((a : A) → Moves env s (body a).store)
    → Moves env s (with_args o s body).store
unfolding with_args
with_args-Moves env none s body h = unmoved
with_args-Moves env (some a) s body h = h a

module _ (json : Codec) (net : Net) (cfg : Config) where
  module _ (env : Env) where
    fetched-Moves :
        (out : Option Exchange × Result FetchErr FetchResp) (s : Store)
        → Moves env s (fetched json net cfg env out s).store
    unfolding fetched
    fetched-Moves (x, ok resp) s = unmoved
    fetched-Moves (x, err e) s = unmoved

    broker-Moves :
        (b : Option Broker) (args : Bytes) (s : Store)
        → Moves env s (through_broker json net cfg env b args s).store
    unfolding through_broker
    broker-Moves none args s = unmoved
    broker-Moves (some b) args s =
        with_args-Moves env (json.fetch_arg args) s _ (λ req. fetched-Moves _ s)

    vault_reply-Moves :
        (req : VaultReq) (r : Option VaultResp) (s : Store)
        → Moves env s (vault_reply json net cfg env req r s).store
    unfolding vault_reply
    vault_reply-Moves req none s = unmoved
    vault_reply-Moves req (some resp) s = unmoved

    vault-Moves :
        (f : Option (VaultReq → Option VaultResp)) (args : Bytes) (s : Store)
        → Moves env s (through_vault json net cfg env f args s).store
    unfolding through_vault
    vault-Moves none args s = unmoved
    vault-Moves (some fill) args s = with_args-Moves env (json.vault_arg args) s _ λ req.
        elim (Bool-cases (contains cfg.vault_creds req.credential)) [
          | inl e ↦ rw e (vault_reply-Moves req (fill req) s)
          | inr e ↦ rw e unmoved
        ]

    blob_reply-Moves :
        (r : Result StoreErr (Option Bytes)) (s : Store)
        → Moves env s (blob_reply json net cfg env r s).store
    unfolding blob_reply
    blob_reply-Moves (ok none) s = unmoved
    blob_reply-Moves (ok (some v)) s = unmoved
    blob_reply-Moves (err e) s = unmoved

    blob_write-Moves :
        (name : String) (raw : Option Bytes) (s : Store)
        → Moves env s (blob_write json net cfg env name raw s).store
    unfolding blob_write
    blob_write-Moves name none s = unmoved
    blob_write-Moves name (some v) s = blob_put-Moves env s cfg.namespace name v

    dispatch-Moves :
        (op : Op) (args : Bytes) (s : Store)
        → Moves env s (dispatch json net cfg env op args s).store
    unfolding dispatch
    dispatch-Moves echo args s = unmoved
    dispatch-Moves kv_get_op args s = with_args-Moves env (json.key_arg args) s _ (λ key. unmoved)
    dispatch-Moves kv_set_op args s =
        with_args-Moves env (json.key_value_arg args) s _
          (λ (key, v). kv_set-Moves env s cfg.namespace key (value_bytes v))
    dispatch-Moves kv_del_op args s =
        with_args-Moves env (json.key_arg args) s _ (λ key. kv_del-Moves env s cfg.namespace key)
    dispatch-Moves queue_push_op args s =
        with_args-Moves env (json.name_msg_arg args) s _
          (λ (name, v). queue_push-Moves env s cfg.namespace name (value_bytes v))
    dispatch-Moves queue_pop_op args s =
        with_args-Moves env (json.name_arg args) s _
          (λ name. queue_pop-Moves env s cfg.namespace name)
    dispatch-Moves cache_get_op args s =
        with_args-Moves env (json.key_arg args) s _ (λ key. cache_get-Moves env s cfg.namespace key)
    dispatch-Moves cache_set_op args s =
        with_args-Moves env (json.cache_arg args) s _
          (λ (key, v, ttl). cache_set-Moves env s cfg.namespace key (value_bytes v) ttl)
    dispatch-Moves blob_put_op args s =
        with_args-Moves env (json.blob_arg args) s _
          (λ (name, text). blob_write-Moves name (json.base64_decode text) s)
    dispatch-Moves blob_get_op args s =
        with_args-Moves env (json.name_arg args) s _ (λ name. blob_reply-Moves _ s)
    dispatch-Moves http_fetch args s = broker-Moves cfg.broker args s
    dispatch-Moves vault_fetch args s = vault-Moves cfg.vault args s
    dispatch-Moves other_op args s = unmoved

  module _ (aead : Aead) (serialize : Db → Bytes) (names : List String) where
    -- The host calls of a run, in their order, are steps that the store can take between the sections of
    -- its flushes, as long as its generation does not wrap around.
    pub calls-Reach :
        (cs : List (Env × String × Bytes)) (first w : World)
        → Reach aead serialize names first w
        → w.store.write_gen + suc (length cs) < u64_mod
        → Reach aead serialize names first (record w { store = (calls json net cfg cs w.store).0 })
    unfolding calls call
    calls-Reach [] first w r room = r
    calls-Reach ((env, op, args) ∷ cs) first w r room =
        let o = call json net cfg env op args w.store in
        let (r', le) =
          Moves-Reach aead serialize names env first w o.store r (omega (arith, room))
            (dispatch-Moves env (op_of op) args w.store) in
        calls-Reach cs first (record w { store = o.store }) r' (omega (arith, room, le))
