-- ===== src/Registry/Client/Trust.antt =====
-- What the client trusts: a catalog whose signature a pinned key verifies and that is no older than
-- the one it has, and an artifact with the catalog's hash.
use Prim.Native.Nat.{Ordering}
use Prim.Native.String.{compare}
use mykeep_foundry.Registry.Client.{older}
use mykeep_foundry.Registry.Client.{
  is_rollback, decoded_index, fetched, artifact, Web, Client, new_index, ensure_index,
}
use mykeep_foundry.Prelude.{
  >>=-eq-ok, Bool-cases, Bytes, List, Option, Result-cases, String, ap, arith, err, false,
  if◌then◌else◌, inl, inr, ok, some, subst, take, true, ◌++◌, ◌∙◌, ◌≡◌, ◌≢◌, ◌⊎◌,
}
use mykeep_foundry.Store.State.{Env, Store}
use mykeep_foundry.Registry.Manifest.{Manifest}
use mykeep_foundry.Registry.Tools.{Registry, install_marketplace}
use mykeep_foundry.Registry.Sign.{by_pinned_key}
use mykeep_foundry.Registry.Index.{
  Index, rollback, verify_index, IndexVersion, IndexTool, find, unpack_tool,
}
use mykeep_foundry.Host.Text.{codes, Text}

module _ (web : Web) (r : Registry) where
  -- The signed bytes of a catalog that `EnsureIndex` accepts.
  pub record Accepted (c : Client) (idx : Index) : Type 0 where
    pub raw : Bytes
    pub sig : Bytes
    pub signed : by_pinned_key r.ed25519 c.pubkeys raw sig ≡ true
    pub parsed : web.decode_index raw ≡ some idx
    pub fresh :
        (old : Index) → c.idx ≡ some old → compare idx.generated_at old.generated_at ≢ Ordering.lt

  not-older : (a b : String) → older a b ≡ false → compare a b ≢ Ordering.lt
  unfolding older
  not-older a b h earlier = cc (rw (earlier, older) at h)

  is_rollback-fresh :
      (new : Index) (o : Option Index) (old : Index)
      → is_rollback new o ≡ false
      → o ≡ some old
      → compare new.generated_at old.generated_at ≢ Ordering.lt
  unfolding is_rollback
  is_rollback-fresh new o old h e = not-older new.generated_at old.generated_at (rw e at h)

  decoded_index-ok : (o : Option Index) {i : Index} → decoded_index o ≡ ok i → o ≡ some i
  unfolding decoded_index
  decoded_index-ok o h = ground arith

  verify_index-ok :
      (keys : List Bytes) (raw sig : Bytes) {u : Unit {0}}
      → verify_index r.ed25519 keys raw sig ≡ ok u
      → by_pinned_key r.ed25519 keys raw sig ≡ true
  unfolding verify_index
  verify_index-ok keys raw sig h = ground arith

  new_index-Accepted : (c : Client) {idx : Index} → new_index web r c ≡ ok idx → Accepted c idx
  unfolding new_index
  new_index-Accepted c {idx} h =
      let (raw, _, h1) = >>=-eq-ok (fetched web r c (codes "index.json")) _ h in
      let (sig, _, h2) = >>=-eq-ok (fetched web r c (codes "index.json.sig")) _ h1 in
      let (_, hv, h3) = >>=-eq-ok (verify_index r.ed25519 c.pubkeys raw sig) _ h2 in
      let (i, hd, h4) = >>=-eq-ok (decoded_index (web.decode_index raw)) _ h3 in
      last raw sig i (verify_index-ok c.pubkeys raw sig hv)
        (decoded_index-ok (web.decode_index raw) hd) h4
    where
      last :
          (raw sig : Bytes) (i : Index)
          → by_pinned_key r.ed25519 c.pubkeys raw sig ≡ true
          → web.decode_index raw ≡ some i
          → (if is_rollback i c.idx then err rollback else ok i) ≡ ok idx
          → Accepted c idx
      last raw sig i v d e = elim (Bool-cases (is_rollback i c.idx)) [
        | inl old ↦ ground arith
        | inr new ↦
            let same : i ≡ idx = ground arith in
            record {
              raw = raw;
              sig = sig;
              signed = v;
              parsed = d ∙ ap some same;
              fresh = λ old had.
                  is_rollback-fresh idx c.idx old
                    (subst (λ (j : Index). is_rollback j c.idx ≡ false) same new) had;
            }
      ]

  -- `EnsureIndex` leaves the client as it was, or puts in a catalog whose bytes a pinned key has
  -- signed and that is not older than the one before.
  pub ensure_index-Accepted :
      (c : Client)
      → ((ensure_index web r c).1 ≡ c)
        ⊎ ((idx : Index) × ((ensure_index web r c).1 ≡ record c { idx = some idx })
            × Accepted c idx)
  unfolding ensure_index
  ensure_index-Accepted c = elim (Result-cases (new_index web r c)) [
    | inl (idx, e) ↦ inr (idx, ground arith, new_index-Accepted c e)
    | inr (e, h) ↦ inl (ground arith)
  ]

  -- The artifact of a catalog entry, as it was downloaded from the entry's path and unpacked, and what was
  -- installed.
  pub record Installed (env : Env) (base : Text) (idx : Index) (id version : String) (m : Manifest)
      (s s' : Store) : Type 0 where
    pub tool : IndexTool
    pub entry : IndexVersion
    pub resolved : find idx id version ≡ ok (tool, entry)
    pub body : Bytes
    pub downloaded : web.http_get (base ++ codes entry.artifact) ≡ some (200, body)
    pub zipped : Bytes
    pub cut : zipped ≡ take 16777216 body
    pub intact : web.zip_sha256 zipped ≡ entry.zip_sha256
    pub source : Bytes
    pub unpacked : unpack_tool r.coding web.unzip zipped ≡ ok (m, source)
    pub installs :
        install_marketplace r env m source entry.source_sig entry.verified s ≡ (ok tt, s')
