-- ===== src/Registry/Index/Pack.antt =====
-- What an artifact unpacks to.
use mykeep_foundry.Registry.Index.{
  with_manifest, with_source, unpack_member, unpack_members, complete, is_nil, Members, unpack_tool,
  as_market,
}
use mykeep_foundry.Registry.Index.{
  unpack_member, unpack_members, with_manifest, with_source, complete, is_nil,
}
use mykeep_foundry.Prelude.{
  Bytes, List, Option, [], length, map, ok, refl, some, take, take-all, ◌∷◌, ◌≡◌, ◌≢◌, ◌≤◌,
}
use mykeep_foundry.Registry.Publish.{Press, pack_tool}
use mykeep_foundry.Registry.Manifest.{Manifest, Coding, parse_manifest, canonical}
use mykeep_foundry.Host.Text.{text_eq, Text}

-- Reading an archive yields the members that were written, in their order.
abbrev pub ReadsBack : Press → (Bytes → Option Members) → Type 0
ReadsBack press unzip =
    (ms : List (Text × Bytes)) (zipped : Bytes)
    → press.zip_members ms ≡ some zipped
    → unzip zipped ≡ some (map (λ x. (x.0, some x.1)) ms)

-- A packed tool unpacks to its manifest and to the first 4 MiB of its source: to the whole source if it
-- is no longer, and to a cut one, with no error, if it is. (The source is not empty, the manifest's JSON
-- is at most 1 MiB and parses to the manifest, and archives read back to the members written.)
pub unpack_tool-pack_tool :
    (press : Press) (c : Coding) (unzip : Bytes → Option Members) (m : Manifest) (source : Bytes)
    {zipped : Bytes}
    → ReadsBack press unzip
    → pack_tool press c m source ≡ some zipped
    → source ≢ []
    → length (canonical c m) ≤ 1048576
    → parse_manifest c (canonical c m) ≡ ok m
    → unpack_tool c unzip zipped ≡ ok (m, take 4194304 source)
unfolding unpack_tool unpack_members unpack_member with_manifest with_source complete text_eq is_nil
    as_market pack_tool
unpack_tool-pack_tool press c unzip m [] archive packed none_empty short parses =
    absurd (none_empty refl)
unpack_tool-pack_tool press c unzip m (b ∷ source) {zipped} archive packed none_empty short parses =
    rw (archive _ zipped packed, unpack_tool)
      (rw (take-all 1048576 (canonical c m) short) (rw parses refl))
