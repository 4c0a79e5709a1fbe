-- ===== src/Registry/Client.antt =====
-- internal/registry/client.go: fetching the signed catalog and installing from it. The HTTP client
-- is a parameter.
pub mod Trust
pub mod Published
use Prim.Native.Nat.{Ordering}
use Prim.Native.String.{compare}
use mykeep_foundry.Registry.Index.{
  as_market, IndexVersion, IndexTool, Index, MarketErr, get_failed, bad_index, rollback,
  hash_mismatch, verify_index, find, Members, unpack_tool,
}
use mykeep_foundry.Prelude.{
  Bool, Bytes, List, Option, Result, String, [], eqb, err, false, if◌then◌else◌, none, ok, some,
  take, true, ℕ, ◌++◌, ◌==◌, ◌>>◌, ◌∷◌, ◌>>=◌,
}
use mykeep_foundry.Store.State.{Env, Store}
use mykeep_foundry.Registry.Tools.{Registry, install_marketplace}
use mykeep_foundry.Registry.Manifest.{Manifest}
use mykeep_foundry.Host.Text.{Text, codes, has_suffix}

-- The packages that the client uses: the HTTP client (a status and a body, or an error), the JSON of
-- the catalog, the hash of an artifact and the reader of archives.
pub record Web : Type 0 where
  pub http_get : Text → Option (ℕ × Bytes)
  pub decode_index : Bytes → Option Index
  pub zip_sha256 : Bytes → String
  pub unzip : Bytes → Option Members

-- `Client`; the catalog that was last verified.
pub record Client : Type 0 where
  pub base_url : Text
  pub pubkeys : List Bytes
  pub idx : Option Index

-- `NewClient`
unfoldable pub new_client : Text → List Bytes → Client
new_client url keys = record {
  base_url = if has_suffix url (b'/' ∷ []) then url else url ++ b'/' ∷ [];
  pubkeys = keys;
  idx = none;
}

abbrev body_max : ℕ
body_max = 16777216

-- `idx.GeneratedAt < c.idx.GeneratedAt`, on the bytes of the texts.
unfoldable pub older : String → String → Bool
older a b = elim (compare a b) [ Ordering.lt ↦ true | _ ↦ false ]

unfoldable pub is_rollback : Index → Option Index → Bool
unfolding older
is_rollback new none = false
is_rollback new (some old) = older new.generated_at old.generated_at

decoded_index : Option Index → Result MarketErr Index
decoded_index none = err bad_index
decoded_index (some i) = ok i

body_of : Option (ℕ × Bytes) → Result MarketErr Bytes
body_of none = err get_failed
body_of (some (status, body)) = if eqb status 200 then ok (take body_max body) else err get_failed

module _ (web : Web) (r : Registry) where
  -- `Client.get`
  fetched : Client → Text → Result MarketErr Bytes
  unfolding body_of
  fetched c rel = body_of (web.http_get (c.base_url ++ rel))

  -- The catalog that `EnsureIndex` accepts.
  unfoldable pub new_index : Client → Result MarketErr Index
  unfolding fetched verify_index decoded_index is_rollback
  new_index c = do
    raw ← fetched c (codes "index.json")
    sig ← fetched c (codes "index.json.sig")
    verify_index r.ed25519 c.pubkeys raw sig
    idx ← decoded_index (web.decode_index raw)
    if is_rollback idx c.idx then err rollback else ok idx

  -- `EnsureIndex`
  unfoldable pub ensure_index : Client → Result MarketErr (Unit {0}) × Client
  ensure_index c = elim (new_index c) [
    | ok idx ↦ (ok tt, record c { idx = some idx })
    | err e ↦ (err e, c)
  ]

  -- The artifact of a catalog entry, after its hash and its two members were checked.
  artifact : Client → IndexVersion → Result MarketErr (Manifest × Bytes)
  unfolding fetched
  artifact c v = do
    zipped ← fetched c (codes v.artifact)
    if web.zip_sha256 zipped == v.zip_sha256
        then unpack_tool r.coding web.unzip zipped
        else err hash_mismatch

  finish :
      Env
      → IndexVersion
      → Result MarketErr (Manifest × Bytes)
      → Store
      → Result MarketErr Manifest × Store
  unfolding as_market
  finish env v (err e) s = (err e, s)
  finish env v (ok (m, source)) s =
      let (res, s') = install_marketplace r env m source v.source_sig v.verified s in
      ((as_market res >> ok m), s')

  from_entry :
      Env
      → Client
      → Result MarketErr (IndexTool × IndexVersion)
      → Store
      → Result MarketErr Manifest × Store
  unfolding finish artifact
  from_entry env c (err e) s = (err e, s)
  from_entry env c (ok (t, v)) s = finish env v (artifact c v) s

  from_catalog :
      Env → Client → Option Index → String → String → Store → Result MarketErr Manifest × Store
  unfolding from_entry
  from_catalog env c none id version s = (err bad_index, s)
  from_catalog env c (some idx) id version s = from_entry env c (find idx id version) s

  -- The catalog is fetched where there is none yet.
  with_index : Client → Option Index → Result MarketErr (Unit {0}) × Client
  unfolding ensure_index
  with_index c none = ensure_index c
  with_index c (some idx) = (ok tt, c)

  -- What `Install` does once it has tried to have a catalog.
  after_index :
      Env
      → Result MarketErr (Unit {0})
      → Client
      → Option Index
      → String
      → String
      → Store
      → Result MarketErr Manifest × Client × Store
  unfolding from_catalog
  after_index env (err e) c idx id version s = (err e, c, s)
  after_index env (ok u) c idx id version s =
      ((from_catalog env c idx id version s).0, c, (from_catalog env c idx id version s).1)

  -- `Install`: the manifest, the client and the store after it.
  unfoldable pub install :
      Env → Client → String → String → Store → Result MarketErr Manifest × Client × Store
  unfolding with_index after_index
  install env c id version s =
      let (res, c') = with_index c c.idx in after_index env res c' c'.idx id version s
