-- ===== src/Component.antt =====
-- component/component.go: the component that the program and the suite embed, which opens the store
-- under a key, puts the runtime and the server over it, and takes both down again.
pub mod Lifecycle
pub mod Served
use mykeep_foundry.Prelude.{
  Bool, Bytes, List, Option, Result, String, [], err, false, if◌then◌else◌, none, not, ok, some,
  true, ℕ, ◌&&◌, ◌==◌, ◌∷◌,
}
use mykeep_foundry.Store.State.{Db, Env, opened}
use mykeep_foundry.Store.Persist.{World}
use mykeep_foundry.Store.Open.{Drive, Opening, OpenErr, open_store, Flushing, CloseErr, close_store}
use mykeep_foundry.Server.Routes.{serve_http}
use mykeep_foundry.Server.{Options, Request, Handled, Wire, Server, with_defaults}
use mykeep_foundry.Secret.{Aead}
use mykeep_foundry.Registry.Sign.{Ed25519}
use mykeep_foundry.Registry.Manifest.{Coding}
use mykeep_foundry.Registry.Client.{Web, Client, new_client}
use mykeep_foundry.Prelude.Int.{pos}
use mykeep_foundry.Host.Text.{Text, text_eq}
use mykeep_foundry.Host.Dispatcher.{VaultReq, VaultResp, Codec}
use mykeep_foundry.Host.Broker.{Net, new_broker}
use mykeep_foundry.Engine.{Sandbox}

-- `Options`; no marketplace is the empty URL, no vault is none.
pub record Setup : Type 0 where
  pub data_dir : String
  pub lan : Bool
  pub agent_token : Bytes
  pub human_token : Bytes
  pub human_session : Bytes
  pub cookie_name : String
  pub registry_keys : List Bytes
  pub market_url : Text
  pub vault_filler : Option (VaultReq → Option VaultResp)

-- The packages that the parts are built over, and the limit of rounds of the engine's loop.
pub record Machine (M : Type 0) : Type 0 where
  pub aead : Aead
  pub serialize : Db → Bytes
  pub deserialize : Bytes → Option Db
  pub coding : Coding
  pub ed25519 : Ed25519
  pub codec : Codec
  pub net : Net
  pub vm : Sandbox M
  pub web : Web
  pub wire : Wire
  pub rounds : ℕ

-- What stands while the component is unlocked: the store, the server and the marketplace client. The
-- engine keeps nothing between runs.
pub record Parts (M : Type 0) : Type 0 where
  pub world : World
  pub srv : Server M
  pub client : Option Client

-- `Component`
pub record Component (M : Type 0) : Type 0 where
  pub setup : Setup
  pub parts : Option (Parts M)

pub data ComponentErr : Type 0 where
  no_data_dir no_engine : ComponentErr
  of_open : OpenErr → ComponentErr

-- What the machine decides for an `Unlock`: the calls of `Open`, whether the engine starts and how the
-- store closes where it does not, and the two tokens that are read from randomness.
pub record Unlocking : Type 0 where
  pub opening : Opening
  pub engine : Bool
  pub flushing : Flushing
  pub fresh_use : Bytes
  pub fresh_control : Bytes

-- `FirstLaunch`
unfoldable pub first_launch : Drive → Bool
first_launch d = elim d.blob [ none ↦ true | some blob ↦ false ]

has_keys : List Bytes → Bool
has_keys [] = false
has_keys (k ∷ ks) = true

-- The marketplace client, only with a URL and a pinned key.
unfoldable pub client_of : Setup → Option Client
unfolding has_keys new_client text_eq
client_of opts =
    if not (text_eq opts.market_url []) && has_keys opts.registry_keys
    then some (new_client opts.market_url opts.registry_keys)
    else none

server_options : Setup → Options
server_options opts = record {
  enable_lan = opts.lan;
  use_token = opts.agent_token;
  control_token = opts.human_token;
  control_session = opts.human_session;
  session_cookie = opts.cookie_name;
}

module _ {M : Type 0} where
  -- `New`
  unfoldable pub new_component : Setup → Result ComponentErr (Component M)
  new_component opts =
      if opts.data_dir == "" then err no_data_dir else ok (record { setup = opts; parts = none })

  unfoldable pub server_of : Machine M → Unlocking → Setup → Server M
  unfolding server_options with_defaults new_broker
  server_of m un opts = record {
    opt = with_defaults un.fresh_use un.fresh_control (server_options opts);
    rt = record {
      registry = record { coding = m.coding; ed25519 = m.ed25519; pubkeys = opts.registry_keys };
      codec = m.codec;
      net = m.net;
      broker = some (new_broker (pos 0));
      vault = opts.vault_filler;
    };
    vm = m.vm;
    web = m.web;
    wire = m.wire;
    rounds = m.rounds;
  }

  -- What follows `store.Open` in `Unlock`, by whether the engine starts.
  with_engine :
      Bool
      → Machine M
      → Unlocking
      → Component M
      → World
      → Drive
      → Result ComponentErr (Unit {0}) × (Component M × Drive)
  unfolding server_of client_of close_store
  with_engine false m un c w d =
      (err no_engine, (c, (close_store m.aead m.serialize un.flushing w d).1.1))
  with_engine true m un c w d = (
    ok tt,
    (
      record c {
        parts =
            some (record { world = w; srv = server_of m un c.setup; client = client_of c.setup });
      },
      d,
    ),
  )

  assemble_parts :
      Machine M
      → Unlocking
      → Component M
      → Result OpenErr World × Drive
      → Result ComponentErr (Unit {0}) × (Component M × Drive)
  unfolding with_engine
  assemble_parts m un c (err e, d) = (err (of_open e), (c, d))
  assemble_parts m un c (ok w, d) = with_engine un.engine m un c w d

  unless_unlocked :
      Option (Parts M)
      → Component M
      → Drive
      → Result ComponentErr (Unit {0}) × (Component M × Drive)
      → Result ComponentErr (Unit {0}) × (Component M × Drive)
  unless_unlocked (some p) c d opened = (ok tt, (c, d))
  unless_unlocked none c d opened = opened

  -- `Unlock`
  unfoldable pub unlock :
      Machine M
      → Unlocking
      → Bytes
      → Component M
      → Drive
      → Result ComponentErr (Unit {0}) × (Component M × Drive)
  unfolding assemble_parts unless_unlocked
  unlock m un dek c d =
      unless_unlocked c.parts c d
        (assemble_parts m un c (open_store m.aead m.deserialize un.opening dek d))

  close_parts : Machine M → Flushing → Option (Parts M) → Drive → Option CloseErr × Drive
  unfolding close_store
  close_parts m f none d = (none, d)
  close_parts m f (some p) d =
      let out = close_store m.aead m.serialize f p.world d in (out.0, out.1.1)

  -- `Lock`
  unfoldable pub lock :
      Machine M → Flushing → Component M → Drive → Option CloseErr × (Component M × Drive)
  unfolding close_parts
  lock m f c d = let out = close_parts m f c.parts d in (out.0, (record c { parts = none }, out.1))

  token_of : (Options → Bytes) → Option (Parts M) → Bytes
  token_of which none = []
  token_of which (some p) = which p.srv.opt

  -- `UseToken`, `ControlToken`
  unfoldable pub use_token_of : Component M → Bytes
  unfolding token_of
  use_token_of c = token_of (λ o. o.use_token) c.parts

  unfoldable pub control_token_of : Component M → Bytes
  unfolding token_of
  control_token_of c = token_of (λ o. o.control_token) c.parts

  after_request : Parts M → Option Handled → Option (Handled × Parts M)
  after_request p none = none
  after_request p (some h) =
      some (h, record p { world = record p.world { store = h.store }; client = h.market })

  serve_parts : (ℕ → Env) → Request → Option (Parts M) → Option (Handled × Parts M)
  unfolding serve_http after_request
  serve_parts moments r none = none
  serve_parts moments r (some p) =
      after_request p (serve_http p.srv moments r p.world.store p.client)

  with_parts : Component M → Option (Handled × Parts M) → Option (Handled × Component M)
  with_parts c none = none
  with_parts c (some (h, p)) = some (h, record c { parts = some p })

  -- A request to the mux that `Mount` has attached the planes to: none where no plane takes it.
  unfoldable pub mounted : (ℕ → Env) → Request → Component M → Option (Handled × Component M)
  unfolding serve_parts with_parts
  mounted moments r c = with_parts c (serve_parts moments r c.parts)
