-- ===== src/Registry/Tools/Consent.antt =====
-- Installation and consent: what is installed was signed, and a grant holds for the manifest that it
-- was given for and for no other.
use mykeep_foundry.Registry.Manifest.{
  Manifest, Grant, manifest_changed, parse_manifest, canonical, hash, RegErr,
}
use mykeep_foundry.Registry.Tools.{
  signed, checked, decoded, tool_of, put_bound, put_if, Tool, Registry, lifted, source_sha256,
  install_marketplace, get, bound, set_grant, grant, marketplace_row,
}
use mykeep_foundry.Prelude.{
  >>=-eq-ok, Bool, Bool-cases, Bytes, In, Option, Option-cases, Result, String, any, any-finds, ap,
  arith, eq_iff, eq_refl, eqb, err, false, inl, inr, length, none, ok, refl, some, sym, true, ◌&&◌,
  ◌↔◌, ◌∙◌, ◌≡◌, ◌≢◌, ◌⊎◌,
}
use mykeep_foundry.Store.Tools.{put_tool, get_tool, put_grant, get_grant}
use mykeep_foundry.Store.Tools.ReadBack.{get_tool-put_tool, get_grant-put_grant}
use mykeep_foundry.Store.State.{ToolRow, tools_select, grants_select, StoreErr, Env, Store}
use mykeep_foundry.Registry.Sign.{public_key_size, signed_message, by_pinned_key, verify}
use mykeep_foundry.Host.Text.{codes}

lifted-ok {ℓ} : {A : Type ℓ} (m : Result StoreErr A) {a : A} → lifted m ≡ ok a → m ≡ ok a
lifted-ok (ok a) h = ground arith
lifted-ok (err e) h = cc

get_grant-put_tool :
    (env later : Env) (row : ToolRow) (name : String) (s : Store)
    → get_grant later name (put_tool env row s).1 ≡ get_grant later name s
unfolding put_tool get_grant
get_grant-put_tool env later row name s = ground arith

get_tool-put_grant :
    (env later : Env) (tool name : String) (caps : Bytes) (sha : String) (s : Store)
    → get_tool later name (put_grant env tool caps sha s).1 ≡ get_tool later name s
unfolding put_grant get_tool
get_tool-put_grant env later tool name caps sha s = ground arith

-- The read statements of a call work.
abbrev pub Reads : Env → Type 0
Reads env = (env.fails tools_select ≡ false) × (env.fails grants_select ≡ false)

module _ (r : Registry) where
  pinned_iff :
      (msg sig pk : Bytes)
      → ((eqb (length pk) public_key_size && r.ed25519.check pk msg sig) ≡ true)
        ↔ ((length pk ≡ public_key_size) × (r.ed25519.check pk msg sig ≡ true))
  pinned_iff msg sig pk = (λ h. ground arith, λ h. ground arith)

  -- A marketplace tool is installed only with a signature that a pinned key of 32 bytes verifies,
  -- over its name, its version and the hash of its source; otherwise the store is as it was.
  pub install_marketplace-signed :
      (env : Env) (m : Manifest) (source sig : Bytes) (verified : Bool) (s : Store)
      → ((install_marketplace r env m source sig verified s).1 ≡ s)
        ⊎ ((pk : Bytes) × In pk r.pubkeys
            × ((length pk ≡ public_key_size)
                × (r.ed25519.check pk
                      (signed_message
                        (codes m.name)
                        (codes m.version)
                        (codes (source_sha256 r source)))
                      sig
                    ≡ true)))
  unfolding install_marketplace verify by_pinned_key
  install_marketplace-signed env m source sig verified s =
      elim (Bool-cases
        (any (λ pk. eqb (length pk) public_key_size && r.ed25519.check pk msg sig) r.pubkeys)) [
          | inl e ↦ inr (any-finds _ _ (pinned_iff msg sig) r.pubkeys e)
          | inr e ↦ inl (rw e refl)
        ]
    where
      msg : Bytes
      msg = signed_message (codes m.name) (codes m.version) (codes (source_sha256 r source))

  checked-ok :
      (t : Tool) (row : Option (Bytes × String)) {g : Grant}
      → checked r t row ≡ ok g
      → (caps : Bytes) × (row ≡ some (caps, hash r.coding t.manifest))
        × (r.coding.decode_grant caps ≡ some g)
  unfolding checked
  checked-ok t none h = ground arith
  checked-ok t (some (caps, sha)) h = (
    caps,
    ground (arith, eq_iff sha (hash r.coding t.manifest)),
    elim (Option-cases (r.coding.decode_grant caps)) [
      | inl e ↦ ground arith
      | inr (g', e) ↦ ground arith
    ],
  )

  -- A grant that `Grant` returns was stored with the hash of the manifest that is installed now.
  pub grant-current :
      (env : Env) (name : String) (s : Store) {g : Grant}
      → grant r env name s ≡ ok g
      → (t : Tool) × (caps : Bytes) × (get r env name s ≡ ok t)
        × (get_grant env name s ≡ ok (some (caps, hash r.coding t.manifest)))
        × (r.coding.decode_grant caps ≡ some g)
  unfolding grant
  grant-current env name s {g} h =
      let (t, ht, h1) = >>=-eq-ok (get r env name s) _ h in
      let (row, hr, h2) = >>=-eq-ok (lifted (get_grant env name s)) _ h1 in
      let (caps, same, decodes) = checked-ok t row h2 in
      (t, caps, ht, lifted-ok (get_grant env name s) hr ∙ ap ok same, decodes)

  -- What `Get` returns for a row that was just put.
  get-put_tool :
      (env later : Env) (row : ToolRow) (m : Manifest) (s : Store)
      → (put_tool env row s).0 ≡ ok tt
      → later.fails tools_select ≡ false
      → parse_manifest r.coding row.manifest ≡ ok m
      → get r later row.name (put_tool env row s).1
        ≡ ok (record {
          manifest = m;
          source = row.source;
          class = row.class;
          verified = row.verified;
        })
  unfolding get tool_of
  get-put_tool env later row m s put reads parsed =
      rw (get_tool-put_tool env later row row.name s put reads, eq_refl row.name) (rw parsed refl)

  put_if-ok :
      (v : Result RegErr (Unit {0})) (env : Env) (row : ToolRow) (s : Store)
      → (put_if r v env row s).0 ≡ ok tt
      → ((put_if r v env row s).1 ≡ (put_tool env row s).1) × ((put_tool env row s).0 ≡ ok tt)
  unfolding put_if
  put_if-ok (ok _) env row s h = (refl, lifted-ok (put_tool env row s).0 h)
  put_if-ok (err e) env row s h = cc

  grant-stale_put :
      (env later : Env) (row : ToolRow) (m : Manifest) (s : Store) (caps : Bytes) (sha : String)
      → (put_tool env row s).0 ≡ ok tt
      → parse_manifest r.coding row.manifest ≡ ok m
      → get_grant later row.name s ≡ ok (some (caps, sha))
      → sha ≢ hash r.coding m
      → later.fails tools_select ≡ false
      → grant r later row.name (put_tool env row s).1 ≡ err manifest_changed
  unfolding grant checked
  grant-stale_put env later row m s caps sha put back stored other reads =
      rw
        (
          get-put_tool env later row m s put reads back,
          get_grant-put_tool env later row row.name s,
          stored,
        )
        (ground (arith, eq_iff sha (hash r.coding m)))

  -- An update to a manifest with another hash takes the tool's grant away until it is approved
  -- again.
  pub grant-stale :
      (env later : Env) (m : Manifest) (source sig : Bytes) (verified : Bool) (s : Store)
      (caps : Bytes) (sha : String)
      → (install_marketplace r env m source sig verified s).0 ≡ ok tt
      → parse_manifest r.coding (canonical r.coding m) ≡ ok m
      → get_grant later m.name s ≡ ok (some (caps, sha))
      → sha ≢ hash r.coding m
      → later.fails tools_select ≡ false
      → grant r later m.name (install_marketplace r env m source sig verified s).1
        ≡ err manifest_changed
  unfolding install_marketplace
  grant-stale env later m source sig verified s caps sha put back stored other reads =
      let (same, put_ok) =
        put_if-ok (signed r m source sig) env (marketplace_row r m source verified) s put in
      rw same (
        grant-stale_put env later (marketplace_row r m source verified) m s caps sha put_ok back
          stored other reads)

  -- What `Get` returns does not depend on the grants, nor on the call in which it reads.
  get_later :
      (env later : Env) (tool name : String) (caps : Bytes) (sha : String) (s : Store)
      → Reads env
      → Reads later
      → get r later name (put_grant env tool caps sha s).1 ≡ get r env name s
  unfolding get get_tool
  get_later env later tool name caps sha s now then =
      rw (now.0, then.0) (unfold put_grant in ground arith)

  pub grant-set_grant :
      (env later : Env) (name : String) (g : Grant) (t : Tool) (s : Store)
      → get r env name s ≡ ok t
      → (set_grant r env name g s).0 ≡ ok tt
      → r.coding.decode_grant (r.coding.marshal_grant (bound r g t)) ≡ some (bound r g t)
      → Reads env
      → Reads later
      → grant r later name (set_grant r env name g s).1 ≡ ok (bound r g t)
  unfolding set_grant put_bound grant checked decoded
  grant-set_grant env later name g t s found put back now then =
      let wrote : (put_grant env name (r.coding.marshal_grant (bound r g t))
            (hash r.coding t.manifest) s).0
          ≡ ok tt =
        lifted-ok _ (
          ap (λ (q : Result RegErr (Unit {0}) × Store). q.0)
            (sym (ap (λ (x : Result RegErr Tool). put_bound r env name g x s) found))
          ∙ put) in
      rw found (
        rw (
          get_later env later name name (r.coding.marshal_grant (bound r g t))
                (hash r.coding t.manifest) s now then
              ∙ found,
          get_grant-put_grant env later name name (r.coding.marshal_grant (bound r g t))
              (hash r.coding t.manifest) s wrote then.1,
          eq_refl name,
          eq_refl (hash r.coding t.manifest),
          back,
        ))
