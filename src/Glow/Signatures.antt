-- ===== src/Glow/Signatures.antt =====
-- glow/signatures.go: ECDSA keys and signatures over go-ethereum's `crypto`, which is a parameter.
-- Keys of 32 bytes and signatures of 64 are byte lists.
use gca_backend.Base.{
  ℕ, zero, suc, ◌≡◌, Bool, true, false, Option, none, some, List, [], ◌∷◌, arith, length, take, leb,
  if◌then◌else◌, ◌==◌,
}
use gca_backend.Base.Result.{Result, ok, panic, check, ◌>>=◌, ◌>>◌}

abbrev pub PublicKey : Type 0
PublicKey = List ℕ

abbrev pub PrivateKey : Type 0
PrivateKey = List ℕ

abbrev pub Signature : Type 0
Signature = List ℕ

-- github.com/ethereum/go-ethereum/crypto. `none` is an error. A parsed key is shown by its bytes.
pub record EthCrypto : Type 0 where
  pub compress_pubkey : List ℕ → List ℕ
  pub decompress_pubkey : List ℕ → Option (List ℕ)
  pub from_ecdsa_pub : List ℕ → List ℕ
  pub to_ecdsa : List ℕ → Option (List ℕ)
  pub keccak256 : List ℕ → List ℕ
  pub sign : List ℕ → List ℕ → Option (List ℕ)
  pub verify_signature : List ℕ → List ℕ → List ℕ → Bool

abbrev or_panic : Option (List ℕ) → Result (List ℕ)
or_panic none = panic
or_panic (some x) = ok x

-- One round of `GenerateKeyPair` returns a pair where the compressed key begins with 2.
abbrev accept_key :
    PrivateKey → List ℕ → Result (PublicKey × PrivateKey) → Result (PublicKey × PrivateKey)
accept_key private [] next = panic
accept_key private (b ∷ public) next = if b == 2 then ok (public, private) else next

-- The loop of `GenerateKeyPair` with the attempts left; `crypto.GenerateKey` gives the private keys
-- in turn, `none` for an error.
unfoldable pub generate_loop :
    EthCrypto → ℕ → List (Option PrivateKey) → Result (PublicKey × PrivateKey)
generate_loop eth zero source = panic
generate_loop eth (suc attempts) [] = panic
generate_loop eth (suc attempts) (none ∷ source) = panic
generate_loop eth (suc attempts) (some private ∷ source) =
    let next = generate_loop eth attempts source in
    accept_key private (eth.compress_pubkey private) next

unfoldable pub generate_key_pair :
    EthCrypto → List (Option PrivateKey) → Result (PublicKey × PrivateKey)
generate_key_pair eth source = generate_loop eth 500 source

unfoldable pub sign : EthCrypto → List ℕ → PrivateKey → Result Signature
sign eth bytes private = do
  key ← or_panic (eth.to_ecdsa private)
  sig ← or_panic (eth.sign (eth.keccak256 bytes) key)
  check (leb 64 (length sig))
  ok (take 64 sig)

unfoldable pub verify : EthCrypto → PublicKey → List ℕ → Signature → Bool
verify eth public bytes signature = elim (eth.decompress_pubkey (2 ∷ public)) [
  | none ↦ false
  | some point ↦ eth.verify_signature (eth.from_ecdsa_pub point) (eth.keccak256 bytes) signature
]

-- What the program relies on of a pair that `GenerateKeyPair` returned: the library parses both
-- keys, and verifies the first 64 bytes of what it signs.
pub record IsKeyPair (eth : EthCrypto) (public : PublicKey) (private : PrivateKey) : Type 0 where
  pub key : List ℕ
  pub point : List ℕ
  pub parsed : eth.to_ecdsa private ≡ some key
  pub decompressed : eth.decompress_pubkey (2 ∷ public) ≡ some point
  pub signature_of : List ℕ → List ℕ
  pub signed : (hash : List ℕ) → eth.sign hash key ≡ some (signature_of hash)
  pub long : (hash : List ℕ) → length (signature_of hash) ≡ 65
  pub verified :
      (hash : List ℕ)
      → eth.verify_signature (eth.from_ecdsa_pub point) hash (take 64 (signature_of hash)) ≡ true

module _ {eth : EthCrypto} {public : PublicKey} {private : PrivateKey} where
  -- Signing never panics under such a key.
  pub sign_lem :
      (p : IsKeyPair eth public private) (bytes : List ℕ)
      → sign eth bytes private ≡ ok (take 64 (p.signature_of (eth.keccak256 bytes)))
  unfolding sign
  sign_lem p bytes =
      ground (arith, p.parsed, p.signed (eth.keccak256 bytes), p.long (eth.keccak256 bytes))

  pub verify_lem :
      (p : IsKeyPair eth public private) (bytes : List ℕ)
      → verify eth public bytes (take 64 (p.signature_of (eth.keccak256 bytes))) ≡ true
  unfolding verify
  verify_lem p bytes = rw (p.decompressed, verify) (p.verified (eth.keccak256 bytes))
