-- ===== src/Tests/Keys.antt =====
-- The key file at concrete inputs.
use mykeep_foundry.Tests.{nonce12, key32, tagging}
use mykeep_foundry.Prelude.{
  Bytes, Option, [], ap, drop, drop-append, false, length, none, ok, refl, some, take, take-append,
  true, ◌++◌, ◌∙◌, ◌∷◌, ◌≡◌,
}
use mykeep_foundry.KeyFile.Password.{ReadsBack, derive_dek-create, load_or_create_dek-file}
use mykeep_foundry.KeyFile.{
  EnvelopeJson, whole_write, KeyIo, create_key, derive_dek, load_or_create_dek,
}
use mykeep_foundry.Secret.{Envelope, Randomness, seal, new_envelope}

-- A derivation that looks at the password and at the salt.
abbrev pub short_kdf : Bytes → Bytes → Bytes
short_kdf password salt = take 32 (password ++ salt ++ key32)

abbrev minted_random : Randomness
minted_random = record { salt = some (7 ∷ []); dek = some key32; nonce = some nonce12 }

abbrev split_envelope : Bytes → Option Envelope
split_envelope [] = none
split_envelope (v ∷ []) = none
split_envelope (v ∷ n ∷ rest) =
    some (record { version = v; salt = take n rest; wrapped = drop n rest })

-- The version, the length of the salt, the salt and the wrapped key.
abbrev pub lengths : EnvelopeJson
lengths = record {
  encode = λ e. e.version ∷ length e.salt ∷ (e.salt ++ e.wrapped);
  decode = split_envelope;
}

lengths-ReadsBack : ReadsBack lengths
lengths-ReadsBack e = ap some (
    ap
      (λ (s : Bytes). record {
        version = e.version;
        salt = s;
        wrapped = drop (length e.salt) (e.salt ++ e.wrapped);
      })
      (take-append e.salt e.wrapped)
    ∙ ap (λ (w : Bytes). record { version = e.version; salt = e.salt; wrapped = w })
        (drop-append e.salt e.wrapped))

abbrev pub key_io : KeyIo
key_io = record { readable = true; writing = whole_write; random = minted_random }

abbrev minted : Envelope
minted = record { version = 1; salt = 7 ∷ []; wrapped = nonce12 ++ 42 ∷ key32 }

derive_dek-create_example :
    let made = (derive_dek tagging short_kdf lengths true key_io (4 ∷ []) none).1 in
    (derive_dek tagging short_kdf lengths false key_io (4 ∷ []) made ≡ (ok key32, made))
    × (load_or_create_dek tagging short_kdf lengths key_io (4 ∷ []) made ≡ (ok key32, made))
unfolding derive_dek create_key new_envelope seal
derive_dek-create_example =
    derive_dek-create tagging short_kdf lengths key_io key_io (4 ∷ []) none {dek = key32}
      (record { nonce = nonce12; read = refl; whole = refl }) lengths-ReadsBack refl refl

-- The file of an older key cannot be read.
load_or_create_dek-file_example :
    let io = record key_io { readable = false } in
    let out = load_or_create_dek tagging short_kdf lengths io (4 ∷ []) (some (1 ∷ [])) in
    (io.readable ≡ true → out.1 ≡ some (1 ∷ []))
    × (io.readable ≡ false → out ≡ (ok key32, some (lengths.encode minted)))
unfolding new_envelope seal
load_or_create_dek-file_example =
    load_or_create_dek-file tagging short_kdf lengths (record key_io { readable = false }) (4 ∷ [])
      (1 ∷ []) {e = minted} {dek = key32} refl refl
