-- ===== src/Registry/Index.antt =====
-- internal/registry/index.go: the catalog, its signature and the artifacts. The JSON of the catalog,
-- SHA-256, Ed25519 and `archive/zip` are parameters.
pub mod Pack
use mykeep_foundry.Prelude.{
  Bool, Bool-cases, Bytes, In, List, Option, Result, String, [], ap, arith, eq_iff, err, false,
  if◌then◌else◌, inl, inr, none, ok, some, subst, sym, take, true, ℕ, ◌==◌, ◌∙◌, ◌∷◌, ◌≡◌, ◌>>=◌,
  ◌>>◌,
}
use mykeep_foundry.Registry.Sign.{Ed25519, by_pinned_key}
use mykeep_foundry.Registry.Manifest.{Manifest, Coding, RegErr, parse_manifest}
use mykeep_foundry.Host.Text.{Text, codes, text_eq}

-- `Review`
pub record Review : Type 0 where
  pub verdict : String
  pub risk_score : ℕ

-- `IndexVersion`
pub record IndexVersion : Type 0 where
  pub version : String
  pub artifact : String
  pub zip_sha256 : String
  pub source_sig : Bytes
  pub manifest : Bytes
  pub verified : Bool
  pub review : Option Review

-- `IndexTool`
pub record IndexTool : Type 0 where
  pub id : String
  pub author : String
  pub name : String
  pub latest : String
  pub versions : List IndexVersion

-- `Index`
pub record Index : Type 0 where
  pub schema : ℕ
  pub generated_at : String
  pub tools : List IndexTool

pub data MarketErr : Type 0 where
  get_failed bad_index rollback bad_index_signature : MarketErr
  version_not_found tool_not_in_catalog : MarketErr
  hash_mismatch bad_artifact missing_member : MarketErr
  of_registry : RegErr → MarketErr

-- `verifyIndex`
unfoldable pub verify_index : Ed25519 → List Bytes → Bytes → Bytes → Result MarketErr (Unit {0})
verify_index e keys raw sig =
    if by_pinned_key e keys raw sig then ok tt else err bad_index_signature

-- The inner loop of `find`.
unfoldable pub find_version : String → List IndexVersion → Option IndexVersion
find_version version [] = none
find_version version (v ∷ vs) = if v.version == version then some v else find_version version vs

found_version : IndexTool → Option IndexVersion → Result MarketErr (IndexTool × IndexVersion)
found_version t none = err version_not_found
found_version t (some v) = ok (t, v)

-- The version that is looked for: the latest, if none is named.
abbrev pub wanted : IndexTool → String → String
wanted t version = if version == "" then t.latest else version

find_in : String → String → List IndexTool → Result MarketErr (IndexTool × IndexVersion)
unfolding find_version found_version
find_in id version [] = err tool_not_in_catalog
find_in id version (t ∷ ts) =
    if t.id == id
    then found_version t (find_version (wanted t version) t.versions)
    else find_in id version ts

-- `Index.find`
unfoldable pub find : Index → String → String → Result MarketErr (IndexTool × IndexVersion)
unfolding find_in
find idx id version = find_in id version idx.tools

-- The members of an archive, each with what reading it yields, in the order of the archive.
abbrev pub Members : Type 0
Members = List (Text × Option Bytes)

-- The variables of the loop of `unpackTool`.
record Unpacking : Type 0 where
  manifest : Option Bytes
  source : Bytes

abbrev manifest_max : ℕ
manifest_max = 1048576

abbrev source_max : ℕ
source_max = 4194304

with_manifest : Unpacking → Option Bytes → Result MarketErr Unpacking
with_manifest u none = err bad_artifact
with_manifest u (some b) = ok (record u { manifest = some (take manifest_max b) })

with_source : Unpacking → Option Bytes → Result MarketErr Unpacking
with_source u none = err bad_artifact
with_source u (some b) = ok (record u { source = take source_max b })

-- One round of the loop: unexpected members are ignored.
unpack_member : Text × Option Bytes → Unpacking → Result MarketErr Unpacking
unfolding with_manifest with_source
unpack_member (name, content) u =
    if text_eq name (codes "manifest.json")
    then with_manifest u content
    else if text_eq name (codes "tool.js")
    then with_source u content
    else ok u

unpack_members : Members → Unpacking → Result MarketErr Unpacking
unfolding unpack_member
unpack_members [] u = ok u
unpack_members (m ∷ ms) u = do u' ← unpack_member m u; unpack_members ms u'

unfoldable pub as_market {ℓ} : {A : Type ℓ} → Result RegErr A → Result MarketErr A
as_market (ok a) = ok a
as_market (err e) = err (of_registry e)

is_nil : Bytes → Bool
is_nil [] = true
is_nil (b ∷ bs) = false

complete : Coding → Unpacking → Option Bytes → Result MarketErr (Manifest × Bytes)
unfolding is_nil as_market
complete c u none = err missing_member
complete c u (some b) =
    if is_nil u.source
    then err missing_member
    else do m ← as_market (parse_manifest c b); ok (m, u.source)

-- `unpackTool`, over `zip.NewReader`.
unfoldable pub unpack_tool :
    Coding → (Bytes → Option Members) → Bytes → Result MarketErr (Manifest × Bytes)
unfolding unpack_members complete
unpack_tool c unzip zipped = elim (unzip zipped) [
  | none ↦ err bad_artifact
  | some ms ↦ do
    u ← unpack_members ms (record { manifest = none; source = [] })
    complete c u u.manifest
]

find_version-ok :
    (version : String) (vs : List IndexVersion) {v : IndexVersion}
    → find_version version vs ≡ some v
    → In v vs × (v.version ≡ version)
unfolding find_version
find_version-ok version [] h = cc
find_version-ok version (w ∷ vs) {v} h = elim (Bool-cases (w.version == version)) [
  | inl e ↦ (inl (ground arith), ground (arith, eq_iff w.version version))
  | inr e ↦ let rest = find_version-ok version vs {v = v} (ground arith) in (inr rest.0, rest.1)
]

found_version-ok :
    (x : IndexTool) (o : Option IndexVersion) {t : IndexTool} {v : IndexVersion}
    → found_version x o ≡ ok (t, v)
    → (x ≡ t) × (o ≡ some v)
unfolding found_version
found_version-ok x none h = cc
found_version-ok x (some w) h = (ground arith, ground arith)

find_in-ok :
    (id version : String) (ts : List IndexTool) {t : IndexTool} {v : IndexVersion}
    → find_in id version ts ≡ ok (t, v)
    → In t ts × (t.id ≡ id) × In v t.versions × (v.version ≡ wanted t version)
unfolding find_in
find_in-ok id version [] h = cc
find_in-ok id version (x ∷ ts) {t} {v} h = elim (Bool-cases (x.id == id)) [
  | inl e ↦
      let hit : found_version x (find_version (wanted x version) x.versions) ≡ ok (t, v) =
        rw e at h in
      let (same, found) = found_version-ok x (find_version (wanted x version) x.versions) hit in
      let (member, named) = find_version-ok (wanted x version) x.versions {v = v} found in
      (
        inl (sym same),
        ap (λ (y : IndexTool). y.id) (sym same) ∙ (eq_iff x.id id).0 e,
        subst (λ (y : IndexTool). In v y.versions) same member,
        subst (λ (y : IndexTool). v.version ≡ wanted y version) same named,
      )
  | inr e ↦
      let (member, named, listed_there, ver) =
        find_in-ok id version ts {t = t} {v = v} (rw e at h) in
      (inr member, named, listed_there, ver)
]

-- What `find` returns stands in the catalog under the id and the version that were asked for, the
-- version being the tool's latest where none was named.
pub find-ok :
    (idx : Index) (id version : String) {t : IndexTool} {v : IndexVersion}
    → find idx id version ≡ ok (t, v)
    → In t idx.tools × (t.id ≡ id) × In v t.versions × (v.version ≡ wanted t version)
unfolding find
find-ok idx id version h = find_in-ok id version idx.tools h
