-- ===== src/Server/Registration/Once.antt =====
-- server/api_server_gca_auth.go: registration happens at most once, and survives a restart.
use gca_backend.Base.{
  ◌≡◌, refl, sym, subst, ◌∙◌, true, Option, none, some, List, [], ◌∷◌, ◌++◌, arith, length, take,
  drop, inl, inr, ◌⊎◌, replicate, take-append_self, drop-append, length-append,
}
use gca_backend.Base.Bytes.{copy-same, copy-append}
use gca_backend.Base.Result.{ok, Result-cases}
use gca_backend.Glow.Signatures.{EthCrypto, PrivateKey, verify, generate_key_pair}
use gca_backend.Server.State.{GcaServer}
use gca_backend.Server.Registration.{
  GcaRegistration, signing_bytes, register_gca, load_gca_pubkey, load_server_keys,
}

-- The registrations that arrive one after the other.
unfoldable pub register_all : EthCrypto → GcaServer → List GcaRegistration → GcaServer
register_all eth s [] = s
register_all eth s (gr ∷ grs) = register_all eth (register_gca eth s gr).0 grs

-- Once a key is registered, no further registration changes anything, whoever signed it.
register_all_registered :
    (eth : EthCrypto) (s : GcaServer) (grs : List GcaRegistration)
    → s.gca_pubkey_available ≡ true
    → register_all eth s grs ≡ s
unfolding register_all register_gca
register_all_registered eth s [] h = refl
register_all_registered eth s (gr ∷ grs) h = ground (arith, register_all_registered eth s grs h)

register_gca_cases :
    (eth : EthCrypto) (s : GcaServer) (gr : GcaRegistration)
    → ((register_gca eth s gr).0 ≡ s)
      ⊎ ((verify eth s.gca_temp_key (signing_bytes gr) gr.signature ≡ true)
          × ((register_gca eth s gr).0.gca_pubkey ≡ gr.gca_key)
          × ((register_gca eth s gr).0.gca_pubkey_available ≡ true)
          × ((register_gca eth s gr).0.disk.gca_pub_key ≡ some gr.gca_key))
unfolding register_gca
register_gca_cases eth s gr = ground arith

-- The state is unchanged, or owned by a key that the temporary key signed.
abbrev pub Owned : EthCrypto → GcaServer → GcaServer → Type 0
Owned eth s t =
    (t ≡ s)
    ⊎ ((gr : GcaRegistration) × (verify eth s.gca_temp_key (signing_bytes gr) gr.signature ≡ true)
        × (t.gca_pubkey ≡ gr.gca_key)
        × (t.gca_pubkey_available ≡ true)
        × (t.disk.gca_pub_key ≡ some gr.gca_key)
        × ((more : List GcaRegistration) → register_all eth t more ≡ t))

-- After any registrations the server is unchanged, or it belongs to the key of one that the temporary
-- key signed, this key is in its file, and no registration that follows changes anything.
pub register_all-Owned :
    (eth : EthCrypto) (s : GcaServer) (grs : List GcaRegistration)
    → Owned eth s (register_all eth s grs)
unfolding register_all
register_all-Owned eth s [] = inl refl
register_all-Owned eth s (gr ∷ grs) = elim (register_gca_cases eth s gr) [
  | inl same ↦
      subst (λ t. Owned eth s (register_all eth t grs)) (sym same) (register_all-Owned eth s grs)
  | inr (good, key, now, file) ↦
      let t = (register_gca eth s gr).0 in
      let still = register_all_registered eth t grs now in
      subst (Owned eth s) (sym still)
        (inr (gr, good, key, now, file, λ more. register_all_registered eth t more now))
]

-- A restart after a registration: with both keys of 32 bytes, `loadGCAPubkey` finds the registered key.
pub load_gca_pubkey-register_gca :
    (eth : EthCrypto) (s fresh : GcaServer) (gr : GcaRegistration)
    → length gr.gca_key ≡ 32
    → length fresh.gca_pubkey ≡ 32
    → (register_gca eth s gr).1 ≡ ok tt
    → let t = load_gca_pubkey (record fresh { disk = (register_gca eth s gr).0.disk }) in
      (t.gca_pubkey ≡ gr.gca_key) × (t.gca_pubkey_available ≡ true)
unfolding register_gca load_gca_pubkey
load_gca_pubkey-register_gca eth s fresh gr long zero_key done =
    ground (arith, copy-same fresh.gca_pubkey gr.gca_key (omega arith))

made_keys :
    (eth : EthCrypto) (source : List (Option PrivateKey)) (s t : GcaServer)
    → s.disk.server_keys ≡ none
    → load_server_keys eth source s ≡ ok t
    → t.disk.server_keys ≡ some (t.static_public_key ++ (t.static_private_key ++ replicate 32 0))
unfolding load_server_keys
made_keys eth source s t first e = elim (Result-cases (generate_key_pair eth source)) [
  | inl ((public, private), made) ↦ ground arith
  | inr (inl (x, failed)) ↦ absurd (ground arith)
  | inr (inr stopped) ↦ absurd (ground arith)
]

-- The keys that the first start makes are the keys that every later start loads from the file.
pub load_server_keys_again :
    (eth : EthCrypto) (source later : List (Option PrivateKey)) (s t fresh : GcaServer)
    → s.disk.server_keys ≡ none
    → length t.static_public_key ≡ 32
    → length t.static_private_key ≡ 32
    → load_server_keys eth source s ≡ ok t
    → load_server_keys eth later (record fresh { disk = t.disk })
      ≡ ok (record fresh {
        static_public_key = t.static_public_key;
        static_private_key = t.static_private_key;
        disk = t.disk;
      })
unfolding load_server_keys
load_server_keys_again eth source later s t fresh first long_public long_private e =
    let file = made_keys eth source s t first e in
    let bytes = t.static_public_key ++ (t.static_private_key ++ replicate 32 0) in
    let front : take 32 bytes ≡ t.static_public_key = take-append_self 32 _ _ long_public in
    let back : drop 32 bytes ≡ t.static_private_key ++ replicate 32 0 =
      drop-append 32 t.static_public_key (t.static_private_key ++ replicate 32 0) (omega arith)
      ∙ rw long_public refl in
    ground (
      arith,
      file,
      front,
      back,
      length-append t.static_public_key (t.static_private_key ++ replicate 32 0),
      copy-same (replicate 32 0) t.static_public_key long_public,
      copy-append (replicate 32 0) t.static_private_key (replicate 32 0) long_private,
    )
