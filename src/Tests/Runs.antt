-- ===== src/Tests/Runs.antt =====
-- The engine and the runtime at concrete inputs.
use mykeep_foundry.Tests.{quiet, afterwards, differ}
use mykeep_foundry.Prelude.{
  All, Bytes, List, Result, String, [], ap, arith, err, false, none, ok, refl, some, sym, true, ◌∙◌,
  ◌∷◌, ◌≡◌, ◌⊎◌,
}
use mykeep_foundry.Store.Tools.{installed, select_tool, upsert_tool, put_tool, get_tool, put_grant}
use mykeep_foundry.Store.State.{Env}
use mykeep_foundry.Store.Frame.{SameNs}
use mykeep_foundry.Runtime.Confined.{IsCovered, run-IsGranted, run-SameNs}
use mykeep_foundry.Runtime.{Runtime, Run, run}
use mykeep_foundry.Registry.Tools.{grant, install_dev, get, set_grant}
use mykeep_foundry.Registry.Manifest.{Grant, RegErr, parse_manifest, canonical}
use mykeep_foundry.Host.Dispatcher.{CallErr}
use mykeep_foundry.Engine.Stall.{Quiet, loop-stalled}
use mykeep_foundry.Engine.{Frame, call_frame, result_frame, stalled, Sandbox, loop}
use mykeep_foundry.Tests.Market.{market, with_grant, granted_now}
use mykeep_foundry.Tests.Invocation.{plain, plain-IsShort}
use mykeep_foundry.Tests.Egress.{open_net, two_bytes}

-- A sandbox whose state is the list of frames that the tool has still to write.
abbrev scripted : List Frame → Sandbox (List Frame)
scripted fs = record {
  boot = λ input pages. some fs;
  with_deadline = λ wall m. m;
  expired = λ m. false;
  eval = λ code m. (true, m);
  take_frames = λ m. (m, []);
  respond = λ id val m. (true, m);
  loop_once = λ m. (some false, m);
  poll_io = λ m. (true, m);
  machine = λ m. quiet;
}

-- The tool stores a value, and ends.
abbrev pub storing : Sandbox (List Frame)
storing = scripted (call_frame 1 "kv.set" (9 ∷ []) ∷ result_frame (4 ∷ []) ∷ [])

abbrev pub clock_runtime : Runtime
clock_runtime = record {
  registry = market;
  codec = plain;
  net = open_net;
  broker = some two_bytes;
  vault = none;
}

abbrev stored : Run
stored = run storing clock_runtime quiet afterwards 3 "clock" [] with_grant

run-IsGranted_example :
    (stored.site ≡ (with_grant, []))
    ⊎ ((g : Grant) × (grant market afterwards "clock" with_grant ≡ ok g)
        × All (IsCovered clock_runtime g) stored.site.1)
run-IsGranted_example = run-IsGranted storing clock_runtime quiet afterwards 3 "clock" [] with_grant

abbrev namespace_of : Result RegErr Grant → String
namespace_of (ok g) = g.namespace
namespace_of (err e) = ""

run-SameNs_example : SameNs "notes" with_grant.db stored.site.0.db
unfolding set_grant get get_tool select_tool install_dev put_tool upsert_tool installed
    parse_manifest canonical put_grant
run-SameNs_example =
    run-SameNs storing clock_runtime quiet afterwards 3 "clock" [] with_grant "notes" plain-IsShort
      (omega arith, omega arith)
      (λ g h e. differ "clock" "notes" refl (ap namespace_of (sym granted_now ∙ h) ∙ e))

abbrev host_of_none : Env → String → Bytes → Unit {0} → Result CallErr Bytes × Unit {0}
host_of_none env op args h = (ok [], h)

silence : Quiet (scripted []) (λ m. m ≡ [])
silence = record {
  alive = λ m q. refl;
  silent = λ m q. (q, refl);
  idling = λ m q. (refl, q);
  nudged = λ m q. (refl, q);
}

loop-stalled_example :
    (loop (scripted []) host_of_none 300 0 (record { sandbox = []; host = tt; logs = [] })).0
    ≡ some (err stalled)
loop-stalled_example =
    loop-stalled (scripted []) host_of_none (λ m. m ≡ []) silence 300 0
      (record { sandbox = []; host = tt; logs = [] }) refl (omega arith) (omega arith)
