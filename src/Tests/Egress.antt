-- ===== src/Tests/Egress.antt =====
-- The broker at concrete inputs.
use mykeep_foundry.Prelude.{In, [], false, some, true, ◌↔◌, ◌∷◌, ◌≡◌}
use mykeep_foundry.Host.Text.{Text, codes}
use mykeep_foundry.Host.Broker.Guard.{Fetched, fetch-Guarded}
use mykeep_foundry.Host.Broker.Grants.{Covers, host_allowed_iff}
use mykeep_foundry.Host.Broker.{FetchReq, Net, Broker, host_allowed, fetch}
use mykeep_foundry.Host.Address.{blocked, InternalV4, blocked-v4}

-- A network in which every host has one public address, and answers "1 2 3".
abbrev pub open_net : Net
open_net = record {
  casing = record { lower = λ c. c; upper = λ c. c };
  parse = λ t. some (record { scheme = codes "https"; authority = t; hostname = t; port = [] });
  resolve = λ h. some ((93 ∷ 184 ∷ 216 ∷ 34 ∷ []) ∷ []);
  request_ok = λ m u. true;
  transport = λ x. some (record { status = 200; headers = []; body = 1 ∷ 2 ∷ 3 ∷ [] });
}

abbrev pub two_bytes : Broker
two_bytes = record { max_bytes = 2; allow_private = false }

abbrev pub api_req : FetchReq
api_req = record {
  method = codes "post";
  url = codes "API.example.com";
  headers = (codes "Host", codes "x") ∷ (codes "Accept", codes "y") ∷ [];
  body = [];
}

fetch-Guarded_example :
    Fetched open_net two_bytes
      (codes ".example.com" ∷ [])
      api_req
      (fetch open_net two_bytes (codes ".example.com" ∷ []) api_req)
fetch-Guarded_example = fetch-Guarded open_net two_bytes (codes ".example.com" ∷ []) api_req

host_allowed_iff_example :
    (host_allowed open_net.casing (codes "api.example.com") (codes ".Example.com" ∷ []) ≡ true) ↔ (
      (a : Text) × In a (codes ".Example.com" ∷ [])
      × Covers open_net.casing a (codes "api.example.com"))
host_allowed_iff_example =
    host_allowed_iff open_net.casing (codes "api.example.com") (codes ".Example.com" ∷ [])

blocked-v4_example :
    (blocked false (169 ∷ 254 ∷ 169 ∷ 254 ∷ []) ≡ true) ↔ InternalV4 169 254 169 254
blocked-v4_example = blocked-v4 169 254 169 254
