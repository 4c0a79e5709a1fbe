-- ===== src/Tests/Catalog.antt =====
-- The client at a concrete catalog.
use mykeep_foundry.Tests.{times}
use mykeep_foundry.Prelude.{
  Bool, Bool-cases, Bytes, List, Option, [], arith, if◌then◌else◌, inl, inr, none, ok, refl, some,
  take, true, ◌&&◌, ◌∷◌, ◌≡◌, ◌⊎◌,
}
use mykeep_foundry.Registry.Publish.{Press, pack_tool}
use mykeep_foundry.Registry.Index.Pack.{ReadsBack, unpack_tool-pack_tool}
use mykeep_foundry.Registry.Manifest.{parse_manifest, with_namespace, canonical}
use mykeep_foundry.Tests.Market.{clock2, market, sig2}
use mykeep_foundry.Registry.Index.{IndexVersion, IndexTool, Index, unpack_tool}
use mykeep_foundry.Registry.Client.Trust.{Accepted, ensure_index-Accepted}
use mykeep_foundry.Registry.Client.{Web, Client, ensure_index}
use mykeep_foundry.Host.Text.{codes, text_eq, text_eq_iff, Text}

abbrev clock_version : IndexVersion
clock_version = record {
  version = "2";
  artifact = "clock.zip";
  zip_sha256 = "z";
  source_sig = sig2;
  manifest = [];
  verified = true;
  review = none;
}

abbrev clock_tool : IndexTool
clock_tool = record {
  id = "clock-id";
  author = "";
  name = "clock";
  latest = "2";
  versions = clock_version ∷ [];
}

abbrev catalog : Index
catalog = record { schema = 1; generated_at = "2026-01-02"; tools = clock_tool ∷ [] }

abbrev older_catalog : Index
older_catalog = record { schema = 1; generated_at = "2026-01-01"; tools = [] }

-- Every path answers with the same bytes, which are the archive, the catalog and its signature.
abbrev pub mirror : Web
mirror = record {
  http_get = λ url. some (200, 1 ∷ []);
  decode_index = λ raw. some catalog;
  zip_sha256 = λ b. "z";
  unzip =
      λ b. some ((codes "manifest.json", some (2 ∷ [])) ∷ (codes "tool.js", some (5 ∷ [])) ∷ []);
}

abbrev informed : Client
informed = record { base_url = codes "https://keep/"; pubkeys = times 32 ∷ []; idx = some catalog }

abbrev outdated : Client
outdated = record informed { idx = some older_catalog }

ensure_index-Accepted_example :
    ((ensure_index mirror market outdated).1 ≡ outdated)
    ⊎ ((idx : Index) × ((ensure_index mirror market outdated).1
          ≡ record outdated { idx = some idx })
        × Accepted mirror market outdated idx)
ensure_index-Accepted_example = ensure_index-Accepted mirror market outdated

-- Two members are those of the clock.
is_clock : Text × Bytes → Text × Bytes → Bool
unfolding text_eq
is_clock (m, b) (n, c) =
    text_eq m (codes "manifest.json")
    && text_eq b (2 ∷ [])
    && (text_eq n (codes "tool.js") && text_eq c (5 ∷ []))

-- A writer of archives that can write only that of the clock.
clock_archive : List (Text × Bytes) → Option Bytes
unfolding is_clock
clock_archive (x ∷ y ∷ []) = if is_clock x y then some (1 ∷ []) else none
clock_archive _ = none

press : Press
unfolding clock_archive
press = record { zip_members = clock_archive; marshal_index = λ idx. [] }

is_clock-members :
    (x y : Text × Bytes)
    → is_clock x y ≡ true
    → mirror.unzip (1 ∷ []) ≡ some ((x.0, some x.1) ∷ (y.0, some y.1) ∷ [])
unfolding is_clock
is_clock-members (m, b) (n, c) h =
    let e1 = (text_eq_iff m (codes "manifest.json")).0 (ground arith) in
    let e2 = (text_eq_iff b (2 ∷ [])).0 (ground arith) in
    let e3 = (text_eq_iff n (codes "tool.js")).0 (ground arith) in
    let e4 = (text_eq_iff c (5 ∷ [])).0 (ground arith) in rw (e1, e2, e3, e4) refl

press-ReadsBack : ReadsBack press mirror.unzip
unfolding press clock_archive
press-ReadsBack [] zipped h = cc
press-ReadsBack (x ∷ []) zipped h = cc
press-ReadsBack (x ∷ y ∷ []) zipped h = elim (Bool-cases (is_clock x y)) [
  | inl e ↦ is_clock-members x y e
  | inr e ↦ cc (rw e at h)
]
press-ReadsBack (x ∷ y ∷ z ∷ ms) zipped h = cc

unpack_tool-pack_tool_example :
    unpack_tool market.coding mirror.unzip (1 ∷ []) ≡ ok (clock2, take 4194304 (5 ∷ []))
unfolding pack_tool press clock_archive is_clock text_eq canonical parse_manifest with_namespace
unpack_tool-pack_tool_example =
    unpack_tool-pack_tool press market.coding mirror.unzip clock2 (5 ∷ []) {zipped = 1 ∷ []}
      press-ReadsBack refl (λ h. cc) (omega arith) refl
