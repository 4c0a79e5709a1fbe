-- ===== src/Host/Dispatcher/Effects.antt =====
-- What a whole invocation does outside the store.
use mykeep_foundry.Prelude.{
  All, All-append, Bool-cases, Bytes, List, Option, Option-cases, Result, String, [], err, inl, inr,
  none, ok, refl, some, true, ◌∷◌, ◌≡◌,
}
use mykeep_foundry.Server.{replied}
use mykeep_foundry.Host.Dispatcher.{
  with_args, through_broker, through_vault, fetched, asked, vault_reply, blob_reply, blob_write,
  Codec, Config, Effect, requested, vaulted, contains, calls, VaultReq, VaultResp, Outcome, Op,
  echo, kv_get_op, kv_set_op, kv_del_op, queue_push_op, queue_pop_op, cache_get_op, cache_set_op,
  blob_put_op, blob_get_op, http_fetch, vault_fetch, other_op, op_of, dispatch, call,
}
use mykeep_foundry.Store.Blob.{blob_get}
use mykeep_foundry.Store.State.{Env, Store, StoreErr}
use mykeep_foundry.Host.Broker.Guard.{Guarded, fetch-Guarded, Fetched}
use mykeep_foundry.Host.Broker.{FetchReq, FetchResp, Net, Broker, FetchErr, Exchange}

-- An effect that the grant of the invocation covers.
abbrev pub IsGranted : Net → Config → Effect → Type 0
IsGranted net cfg (requested x) =
    (b : Broker) × (req : FetchReq) × (cfg.broker ≡ some b) × Guarded net b cfg.allow_hosts req x
IsGranted net cfg (vaulted req) = contains cfg.vault_creds req.credential ≡ true

module _ (json : Codec) (net : Net) (cfg : Config) where
  module _ (env : Env) where
    fetched-IsGranted :
        (b : Broker) (req : FetchReq) (s : Store)
        (out : Option Exchange × Result FetchErr FetchResp)
        → cfg.broker ≡ some b
        → Fetched net b cfg.allow_hosts req out
        → All (IsGranted net cfg) (fetched json net cfg env out s).effects
    unfolding fetched asked Fetched
    fetched-IsGranted b req s (none, ok resp) e h = tt
    fetched-IsGranted b req s (none, err r) e h = tt
    fetched-IsGranted b req s (some x, ok resp) e (g, replied) = ((b, req, e, g), tt)
    fetched-IsGranted b req s (some x, err r) e (g, replied) = ((b, req, e, g), tt)

    broker-IsGranted :
        (b : Option Broker) (args : Bytes) (s : Store)
        → cfg.broker ≡ b
        → All (IsGranted net cfg) (through_broker json net cfg env b args s).effects
    unfolding through_broker
    broker-IsGranted none args s e = tt
    broker-IsGranted (some b) args s e = elim (Option-cases (json.fetch_arg args)) [
      | inl h ↦ rw h tt
      | inr (req, h) ↦
          rw h (fetched-IsGranted b req s _ e (fetch-Guarded net b cfg.allow_hosts req))
    ]

    vault-IsGranted :
        (f : Option (VaultReq → Option VaultResp)) (args : Bytes) (s : Store)
        → All (IsGranted net cfg) (through_vault json net cfg env f args s).effects
    unfolding through_vault
    vault-IsGranted none args s = tt
    vault-IsGranted (some fill) args s = elim (Option-cases (json.vault_arg args)) [
      | inl h ↦ rw h tt
      | inr (req, h) ↦ elim (Bool-cases (contains cfg.vault_creds req.credential)) [
        | inl e ↦ rw (h, e) (reply-granted req (fill req) e)
        | inr e ↦ rw (h, e) tt
      ]
    ]
      where
        reply-granted :
            (req : VaultReq) (r : Option VaultResp)
            → contains cfg.vault_creds req.credential ≡ true
            → All (IsGranted net cfg) (vault_reply json net cfg env req r s).effects
        reply-granted req none e = (e, tt)
        reply-granted req (some resp) e = (e, tt)

    blob_write-quiet :
        (name : String) (raw : Option Bytes) (s : Store)
        → (blob_write json net cfg env name raw s).effects ≡ []
    unfolding blob_write
    blob_write-quiet name none s = refl
    blob_write-quiet name (some v) s = refl

    blob_reply-quiet :
        (r : Result StoreErr (Option Bytes)) (s : Store)
        → (blob_reply json net cfg env r s).effects ≡ []
    unfolding blob_reply
    blob_reply-quiet (ok none) s = refl
    blob_reply-quiet (ok (some v)) s = refl
    blob_reply-quiet (err e) s = refl

    with_args-IsGranted :
        {A : Type 0} (o : Option A) (s : Store) (body : A → Outcome)
        → ((a : A) → All (IsGranted net cfg) (body a).effects)
        → All (IsGranted net cfg) (with_args o s body).effects
    unfolding with_args
    with_args-IsGranted none s body h = tt
    with_args-IsGranted (some a) s body h = h a

    dispatch-IsGranted :
        (op : Op) (args : Bytes) (s : Store)
        → All (IsGranted net cfg) (dispatch json net cfg env op args s).effects
    unfolding dispatch
    dispatch-IsGranted echo args s = tt
    dispatch-IsGranted kv_get_op args s = with_args-IsGranted (json.key_arg args) s _ (λ a. tt)
    dispatch-IsGranted kv_set_op args s =
        with_args-IsGranted (json.key_value_arg args) s _ (λ a. tt)
    dispatch-IsGranted kv_del_op args s = with_args-IsGranted (json.key_arg args) s _ (λ a. tt)
    dispatch-IsGranted queue_push_op args s =
        with_args-IsGranted (json.name_msg_arg args) s _ (λ a. tt)
    dispatch-IsGranted queue_pop_op args s = with_args-IsGranted (json.name_arg args) s _ (λ a. tt)
    dispatch-IsGranted cache_get_op args s = with_args-IsGranted (json.key_arg args) s _ (λ a. tt)
    dispatch-IsGranted cache_set_op args s = with_args-IsGranted (json.cache_arg args) s _ (λ a. tt)
    dispatch-IsGranted blob_put_op args s =
        with_args-IsGranted (json.blob_arg args) s _
          λ (name, text). rw (blob_write-quiet name (json.base64_decode text) s) tt
    dispatch-IsGranted blob_get_op args s =
        with_args-IsGranted (json.name_arg args) s _
          λ name. rw (blob_reply-quiet (blob_get env cfg.namespace name s) s) tt
    dispatch-IsGranted http_fetch args s = broker-IsGranted cfg.broker args s refl
    dispatch-IsGranted vault_fetch args s = vault-IsGranted cfg.vault args s
    dispatch-IsGranted other_op args s = tt

  -- Every request of an invocation has gone through the broker's guard to a host of
  -- the grant, and every use of the vault names a granted credential.
  pub calls-IsGranted :
      (cs : List (Env × String × Bytes)) (s : Store)
      → All (IsGranted net cfg) (calls json net cfg cs s).1
  unfolding calls
  calls-IsGranted [] s = tt
  calls-IsGranted ((env, op, args) ∷ cs) s =
      All-append (IsGranted net cfg) (call json net cfg env op args s).effects _
        (unfold call in dispatch-IsGranted env (op_of op) args s)
        (calls-IsGranted cs (call json net cfg env op args s).store)
