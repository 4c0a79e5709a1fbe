-- ===== src/Tests/Invocation.antt =====
-- The dispatcher at concrete inputs.
use mykeep_foundry.Tests.{quiet, notes}
use mykeep_foundry.Prelude.{Bytes, List, String, [], arith, none, refl, some, ℕ, ◌<◌, ◌∷◌}
use mykeep_foundry.Store.Tables.{sum_bytes}
use mykeep_foundry.Store.Quota.Bounds.{total}
use mykeep_foundry.Store.Quota.{limit_of, queue_bytes}
use mykeep_foundry.Store.State.{Env}
use mykeep_foundry.Store.Limit.{IsWithin, IsCounted}
use mykeep_foundry.Prelude.Int.{pos}
use mykeep_foundry.Host.Text.{codes}
use mykeep_foundry.Host.Dispatcher.Use.{calls-IsWithin}
use mykeep_foundry.Host.Dispatcher.Scope.{IsShort}
use mykeep_foundry.Host.Dispatcher.{Codec, Config, calls}
use mykeep_foundry.Tests.Egress.{open_net, two_bytes, api_req}

-- Every key is "k", and the arguments are the value.
abbrev pub plain : Codec
plain = record {
  key_arg = λ args. some "k";
  key_value_arg = λ args. some ("k", args);
  name_arg = λ args. some "k";
  name_msg_arg = λ args. some ("k", args);
  cache_arg = λ args. some ("k", args, pos 0);
  blob_arg = λ args. some ("k", args);
  fetch_arg = λ args. some api_req;
  vault_arg = λ args. none;
  base64_decode = λ text. some text;
  base64_string = λ raw. raw;
  fetch_json = λ resp. resp.body;
  vault_json = λ resp. [];
}

pub plain-IsShort : IsShort plain
plain-IsShort = record {
  key_value = λ args k v h. ground arith;
  name_msg = λ args k v h. ground arith;
  cache = λ args k v ttl h. ground arith;
  blob = λ args k text raw h e. ground arith;
}

abbrev notes_config : Config
notes_config = record {
  namespace = "notes";
  allow_hosts = codes ".example.com" ∷ [];
  vault_creds = [];
  broker = some two_bytes;
  vault = none;
}

abbrev script : List (Env × String × Bytes)
script =
    (quiet, "kv.set", 1 ∷ 2 ∷ 3 ∷ [])
    ∷ (quiet, "queue.push", 4 ∷ [])
    ∷ (quiet, "http.fetch", [])
    ∷ (quiet, "blob.put", 1 ∷ 2 ∷ 3 ∷ 4 ∷ 5 ∷ 6 ∷ 7 ∷ 8 ∷ 9 ∷ [])
    ∷ []

abbrev counted : (add : ℕ) → add < 100 → IsCounted quiet 10 add
counted add h = record { fits = omega arith; read = refl }

calls-IsWithin_example : IsWithin "notes" 10 (calls plain open_net notes_config script notes).0.db
unfolding limit_of total sum_bytes queue_bytes
calls-IsWithin_example =
    calls-IsWithin plain open_net notes_config 10 script notes plain-IsShort
      (
        counted 7 (omega arith),
        (counted 5 (omega arith), (counted 4 (omega arith), (counted 13 (omega arith), tt))),
      )
      (omega arith, omega arith)
      (record { limited = refl; positive = omega arith; held = omega arith })
