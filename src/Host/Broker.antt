-- ===== src/Host/Broker.antt =====
-- internal/host/broker.go: the egress broker. `net/url`, the resolver and the HTTP transport are
-- parameters; the request that goes to the transport is part of the result.
pub mod Grants
pub mod Guard
use mykeep_foundry.Prelude.{
  Bool, Bytes, List, Option, Result, [], any, err, false, if◌then◌else◌, length, ltb, none, not, ok,
  some, take, true, ℕ, ◌&&◌, ◌+◌, ◌||◌, ◌∷◌, ◌>>=◌, ◌>>◌,
}
use mykeep_foundry.Engine.Pipe.{read}
use mykeep_foundry.Prelude.Int.{ℤ, pos, pos_part, ltb_ℤ}
use mykeep_foundry.Host.Text.{
  Text, codes, text_eq, Casing, to_lower, to_upper, has_prefix, has_suffix, trim_dot,
}
use mykeep_foundry.Host.Address.{Ip, blocked}

-- What `url.Parse` yields of a URL: `Scheme`, `Host`, `Hostname()` and `Port()`.
pub record Url : Type 0 where
  pub scheme : Text
  pub authority : Text
  pub hostname : Text
  pub port : Text

-- `fetchReq`
pub record FetchReq : Type 0 where
  pub method : Text
  pub url : Text
  pub headers : List (Text × Text)
  pub body : Text

-- `fetchResp`
pub record FetchResp : Type 0 where
  pub status : ℕ
  pub headers : List (Text × Text)
  pub body : Bytes
  pub truncated : Bool

-- The errors that a tool sees.
pub data FetchErr : Type 0 where
  bad_url host_not_granted blocked_address : FetchErr

-- What the broker hands to the transport: the address that the dialer is pinned to, and the request.
pub record Exchange : Type 0 where
  pub address : Ip
  pub port : Text
  pub method : Text
  pub url : Text
  pub headers : List (Text × Text)
  pub body : Text

-- What the transport gives back: the response with its whole body, and each header with its first
-- value. It follows no redirect.
pub record Reply : Type 0 where
  pub status : ℕ
  pub headers : List (Text × Text)
  pub body : Bytes

-- What is not the broker's: `url.Parse`, `LookupIPAddr`, whether `http.NewRequest` takes a method and
-- a URL, `client.Do`, and the case mapping.
pub record Net : Type 0 where
  pub casing : Casing
  pub parse : Text → Option Url
  pub resolve : Text → Option (List Ip)
  pub request_ok : Text → Text → Bool
  pub transport : Exchange → Option Reply

-- `Broker`
pub record Broker : Type 0 where
  pub max_bytes : ℕ
  pub allow_private : Bool

-- `NewBroker`; a limit that is not positive is 5 MiB.
unfoldable pub new_broker : ℤ → Broker
new_broker n = record {
  max_bytes = if ltb_ℤ (pos 0) n then pos_part n else 5242880;
  allow_private = false;
}

-- One entry of the grant: an exact name, or a suffix with a leading dot.
unfoldable pub grant_matches : Text → Text → Bool
unfolding text_eq has_prefix has_suffix
grant_matches host a = text_eq a host || has_prefix a (b'.' ∷ []) && has_suffix host a

-- `hostAllowed`
unfoldable pub host_allowed : Casing → Text → List Text → Bool
unfolding grant_matches
host_allowed u host allow =
    any (λ a. grant_matches (to_lower u (trim_dot host)) (to_lower u a)) allow

abbrev dangerous_names : List Text
dangerous_names =
    codes "host"
    ∷ codes "content-length"
    ∷ codes "connection"
    ∷ codes "transfer-encoding"
    ∷ codes "upgrade"
    ∷ []

-- `hopOrDangerous`
unfoldable pub hop_or_dangerous : Casing → Text → Bool
unfolding text_eq
hop_or_dangerous u k = any (λ n. text_eq (to_lower u k) n) dangerous_names

-- The loop that copies the request's headers.
unfoldable pub safe_headers : Casing → List (Text × Text) → List (Text × Text)
safe_headers u [] = []
safe_headers u ((k, v) ∷ hs) =
    let rest = safe_headers u hs in if hop_or_dangerous u k then rest else (k, v) ∷ rest

-- `if pinned == "" { pinned = ip.IP.String() }`
abbrev pub or_first : Option Ip → Ip → Option Ip
or_first none ip = some ip
or_first (some q) ip = some q

-- The loop over the resolved addresses: one that is blocked refuses the host; the first is pinned.
unfoldable pub vet : Bool → List Ip → Option Ip → Result FetchErr (Option Ip)
vet p [] pinned = ok pinned
vet p (ip ∷ ips) pinned =
    let rest = vet p ips (or_first pinned ip) in if blocked p ip then err blocked_address else rest

is_http : Url → Bool
unfolding text_eq
is_http u = text_eq u.scheme (codes "http") || text_eq u.scheme (codes "https")

is_empty : Text → Bool
is_empty [] = true
is_empty (c ∷ s) = false

port_of : Url → Text
unfolding is_empty text_eq
port_of u =
    if is_empty u.port
    then (if text_eq u.scheme (codes "https") then codes "443" else codes "80")
    else u.port

method_of : Casing → Text → Text
unfolding is_empty
method_of u m = if is_empty (to_upper u m) then codes "GET" else to_upper u m

-- `io.LimitReader(resp.Body, b.maxBytes+1)`, and the cut to `maxBytes`.
unfoldable pub limited : Broker → Reply → FetchResp
limited b r =
    let read = take (b.max_bytes + 1) r.body in
    let truncated = ltb b.max_bytes (length read) in
    record {
      status = r.status;
      headers = r.headers;
      body = if truncated then take b.max_bytes read else read;
      truncated = truncated;
    }

module _ (net : Net) (b : Broker) where
  -- `url.Parse` and the three conditions on what it yields.
  checked_url : Text → Result FetchErr Url
  unfolding is_http is_empty
  checked_url url = elim (net.parse url) [
    | none ↦ err bad_url
    | some u ↦ if not (is_http u) || is_empty u.authority then err bad_url else ok u
  ]

  resolved : Text → Result FetchErr (List Ip)
  resolved host = elim (net.resolve host) [
    | none ↦ err bad_url
    | some [] ↦ err bad_url
    | some (ip ∷ ips) ↦ ok (ip ∷ ips)
  ]

  granted : Text → List Text → Result FetchErr (Unit {0})
  granted host allow = if host_allowed net.casing host allow then ok tt else err host_not_granted

  pinned_to : Option Ip → Result FetchErr Ip
  pinned_to none = err bad_url
  pinned_to (some ip) = ok ip

  exchange : Url → Ip → FetchReq → Exchange
  unfolding method_of port_of safe_headers
  exchange u ip req = record {
    address = ip;
    port = port_of u;
    method = method_of net.casing req.method;
    url = req.url;
    headers = safe_headers net.casing req.headers;
    body = req.body;
  }

  -- What a reply becomes, or its absence.
  answer_of : Option Reply → Result FetchErr FetchResp
  unfolding limited
  answer_of none = err bad_url
  answer_of (some r) = ok (limited b r)

  -- `http.NewRequest` and `client.Do`: the request, where it is handed to the transport, and the result.
  send : Exchange → Option Exchange × Result FetchErr FetchResp
  unfolding answer_of
  send x =
      if not (net.request_ok x.method x.url)
      then (none, err bad_url)
      else (some x, answer_of (net.transport x))

  -- `fetch` up to the request, which it makes for the pinned address.
  prepared : List Text → FetchReq → Result FetchErr Exchange
  unfolding checked_url granted resolved pinned_to exchange
  prepared allow req = do
    u ← checked_url req.url
    granted u.hostname allow
    ips ← resolved u.hostname
    pinned ← vet b.allow_private ips none
    ip ← pinned_to pinned
    ok (exchange u ip req)

  sent : Result FetchErr Exchange → Option Exchange × Result FetchErr FetchResp
  unfolding send
  sent (err e) = (none, err e)
  sent (ok x) = send x

  -- `fetch`: the request that was handed to the transport, if one was, and the result.
  unfoldable pub fetch : List Text → FetchReq → Option Exchange × Result FetchErr FetchResp
  unfolding prepared sent
  fetch allow req = sent (prepared allow req)
