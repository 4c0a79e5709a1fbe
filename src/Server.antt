-- ===== src/Server.antt =====
-- internal/server/server.go: the two HTTP planes. The options, the request and the response, and the
-- guards in front of the planes. Tokens and cookie values are byte strings.
pub mod Accepts
pub mod Use
pub mod Control
pub mod Routes
use mykeep_foundry.Prelude.{
  Bool, Bytes, List, Option, String, [], eqb, false, if◌then◌else◌, length, none, not, some, ℕ,
  ◌&&◌, ◌++◌, ◌==◌, ◌||◌, ◌∷◌,
}
use mykeep_foundry.Store.State.{Store}
use mykeep_foundry.Runtime.{RunErr, Runtime}
use mykeep_foundry.Registry.Manifest.{Grant, RegErr}
use mykeep_foundry.Registry.Index.{Index, MarketErr}
use mykeep_foundry.Registry.Client.{Web, Client}
use mykeep_foundry.Host.Text.{Text, codes, text_eq}
use mykeep_foundry.Host.Dispatcher.{Effect}
use mykeep_foundry.Host.Address.{Ip, is_loopback}
use mykeep_foundry.Engine.{LogLine, Sandbox}

-- `Options`
pub record Options : Type 0 where
  pub enable_lan : Bool
  pub use_token : Bytes
  pub control_token : Bytes
  pub control_session : Bytes
  pub session_cookie : String

-- What the server looks at of a request: the path by its segments, the header X-Foundry-Token ("" if
-- there is none), the cookies, the peer's address and whether TLS is used.
pub record Request : Type 0 where
  pub method : String
  pub path : List String
  pub token : Bytes
  pub cookies : List (String × Bytes)
  pub remote_addr : Text
  pub tls : Bool
  pub host : Text
  pub body : Bytes

-- An entry of `useCatalog`.
pub record UseEntry : Type 0 where
  pub name : String
  pub version : String
  pub description : String
  pub verified : Bool
  pub params_schema : Bytes

-- An entry of `ctrlList`.
pub record ControlEntry : Type 0 where
  pub name : String
  pub version : String
  pub class : String
  pub description : String
  pub granted : Bool
  pub verified : Bool

-- What the handlers write; an error's text is the error itself where the code sends `err.Error()`.
pub data Body : Type 0 where
  error_body : String → Body
  registry_error : RegErr → Body
  market_error : MarketErr → Body
  guide_body : Text → Body
  use_tools : List UseEntry → Body
  control_tools : List ControlEntry → Body
  granted_body removed_body : Body
  dev_installed : String → String → Grant → Body
  catalog_body : Option Index → Body
  installed_body : String → String → Bool → String → Grant → Body
  run_failed : RunErr → Body
  run_done : Bytes → List LogLine → Body

pub record Response : Type 0 where
  pub status : ℕ
  pub body : Body

-- The response (none while a tool still runs), and what the request has left and done.
pub record Handled : Type 0 where
  pub response : Option Response
  pub store : Store
  pub market : Option Client
  pub effects : List Effect

-- What the server uses of `encoding/json` and `net`: the decoders of its four kinds of body,
-- `SplitHostPort` and `ParseIP`.
pub record Wire : Type 0 where
  pub decode_grant : Bytes → Option Grant
  pub decode_dev_install : Bytes → Option (Bytes × Bytes)
  pub decode_install : Bytes → Option (String × String)
  pub decode_raw : Bytes → Option Bytes
  pub split_host : Text → Option Text
  pub parse_ip : Text → Option Ip

-- `Server`, less the store and the marketplace client, which requests change: the runtime with its
-- registry, the sandbox's engine, and the HTTP client of the marketplace. The limit of rounds of the
-- engine's loop is the model's.
pub record Server (M : Type 0) : Type 0 where
  pub opt : Options
  pub rt : Runtime
  pub vm : Sandbox M
  pub web : Web
  pub wire : Wire
  pub rounds : ℕ

-- `New`: two fresh tokens stand in for those that are not set.
unfoldable pub with_defaults : Bytes → Bytes → Options → Options
with_defaults fresh_use fresh_control opt = record opt {
  use_token = if text_eq opt.use_token [] then fresh_use else opt.use_token;
  control_token = if text_eq opt.control_token [] then fresh_control else opt.control_token;
  session_cookie = if opt.session_cookie == "" then "fdy_session" else opt.session_cookie;
}

-- `tokenOK`
unfoldable pub token_ok : Bytes → Bytes → Bool
unfolding text_eq
token_ok got want = not (text_eq want []) && eqb (length got) (length want) && text_eq got want

-- `r.Cookie`: the first of that name.
unfoldable pub cookie : String → List (String × Bytes) → Option Bytes
cookie name [] = none
cookie name ((n, v) ∷ cs) = if n == name then some v else cookie name cs

has_token : Option Bytes → Bytes → Bool
unfolding token_ok
has_token none want = false
has_token (some got) want = token_ok got want

-- The tests of `controlAuth`.
unfoldable pub control_auth : Options → Request → Bool
unfolding token_ok has_token cookie text_eq
control_auth opt r =
    token_ok r.token opt.control_token
    || not (text_eq opt.control_session [])
      && has_token (cookie opt.session_cookie r.cookies) opt.control_session

loopback_ip : Option Ip → Bool
unfolding is_loopback
loopback_ip none = false
loopback_ip (some ip) = is_loopback ip

abbrev host_of : Option Text → Text → Text
host_of none addr = addr
host_of (some host) addr = host

-- The test of `loopbackOnly`.
unfoldable pub from_loopback : Wire → Request → Bool
unfolding loopback_ip
from_loopback wire r =
    loopback_ip (wire.parse_ip (host_of (wire.split_host r.remote_addr) r.remote_addr))

-- `baseURL`
unfoldable pub base_url_of : Request → Text
base_url_of r = (if r.tls then codes "https" else codes "http") ++ (codes "://" ++ r.host)

abbrev pub replied : ℕ → Body → Store → Option Client → Handled
replied status body s market = record {
  response = some (record { status = status; body = body });
  store = s;
  market = market;
  effects = [];
}

-- `writeErr`
abbrev pub write_err : ℕ → String → Store → Option Client → Handled
write_err status msg s market = replied status (error_body msg) s market

-- `readBody`
unfoldable pub read_body : Wire → Bytes → Bytes
read_body wire body = elim (wire.decode_raw body) [ none ↦ codes "{}" | some raw ↦ raw ]
