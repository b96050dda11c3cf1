-- ===== src/Inft/Crypto.antt =====
-- packages/og-inft/src/crypto.ts: the wire formats of a bundle and of a sealed key. The ciphers,
-- the curve and the hashes are third-party code, and what is random is an argument.
pub mod Frames
pub mod RoundTrip
use federated_reserve.Prelude.{
  ℕ, zero, suc, ◌+◌, String, Option, none, some, List, [], ◌∷◌, ◌++◌, ◌≡◌, Bool, true, false, not,
  ◌||◌, if◌then◌else◌, ltb, ◌==◌, nat_eq, length, take, drop, first, or_else,
}

abbrev pub Bytes : Type 0
Bytes = List ℕ

-- What a call gives, or the message of the error that it throws.
pub data Result {ℓ} (A : Type ℓ) : Type ℓ where
  returned : A → Result A
  thrown : String → Result A

infixl 5 ◌then◌
abbrev pub ◌then◌ {ℓ κ} : {A : Type ℓ} {B : Type κ} → Result A → (A → Result B) → Result B
returned a then k = k a
thrown e then k = thrown e

pub record Primitives : Type 0 where
  -- `gcm(key, iv).encrypt(plaintext)` and `gcm(key, iv).decrypt(ciphertext)`
  pub gcm_encrypt : Bytes → Bytes → Bytes → Bytes
  pub gcm_decrypt : Bytes → Bytes → Bytes → Result Bytes
  pub keccak_256 : Bytes → Bytes
  -- `secp256k1.utils.isValidPrivateKey(key)`
  pub is_valid_private_key : Bytes → Bool
  -- `secp256k1.getPublicKey(key, false)`
  pub public_key : Bytes → Bytes
  -- `secp256k1.getSharedSecret(privateKey, publicKey, true)`
  pub shared_secret : Bytes → Bytes → Result Bytes
  -- `hkdf(sha256, secret, undefined, HKDF_INFO, 32)`
  pub hkdf : Bytes → Bytes

pub record BundleCipher : Type 0 where
  pub blob : Bytes
  pub plaintext_digest : Bytes
  pub symmetric_key : Bytes

-- `1 + 32 + 32 + 12`
abbrev pub sealed_prefix_len : ℕ
sealed_prefix_len = 1 + 32 + 32 + 12

-- `new Uint8Array(n)`
abbrev pub zeros : ℕ → Bytes
zeros zero = []
zeros (suc n) = 0 ∷ zeros n

-- `dst.set(src, offset)`, where `src` fits
abbrev pub set_at : ℕ → Bytes → Bytes → Bytes
set_at offset src dst = take offset dst ++ (src ++ drop (offset + length src) dst)

-- `length !== n`
abbrev pub has_length : ℕ → Bytes → Bool
has_length n bytes = length bytes == n

module _ (c : Primitives) where
  abbrev pub seal_blob : Bytes → Bytes → Bytes → BundleCipher
  seal_blob key iv plaintext =
      let ciphertext : Bytes = c.gcm_encrypt key iv plaintext in
      record {
        blob = set_at (length iv) ciphertext (set_at 0 iv (zeros (length iv + length ciphertext)));
        plaintext_digest = c.keccak_256 plaintext;
        symmetric_key = key;
      }

  -- `encryptBundle`; a key that is not given is the random one.
  unfoldable pub encrypt_bundle : Bytes → Bytes → Bytes → Option Bytes → Result BundleCipher
  encrypt_bundle random_key random_iv plaintext symmetric_key =
      if not (has_length 32 (or_else symmetric_key random_key))
      then thrown "symmetricKey must be 32 bytes"
      else returned (seal_blob (or_else symmetric_key random_key) random_iv plaintext)

  -- `decryptBundle`
  unfoldable pub decrypt_bundle : Bytes → Bytes → Result Bytes
  decrypt_bundle blob symmetric_key =
      if ltb (length blob) (12 + 16)
      then thrown "blob too short for iv+tag"
      else c.gcm_decrypt symmetric_key (take 12 blob) (drop 12 blob)

  -- The bytes of a sealed key, from the wrapped key.
  abbrev pub sealed_bytes : Bytes → Bytes → Bytes → Bytes
  sealed_bytes eph_pub iv wrap_cipher =
      set_at sealed_prefix_len wrap_cipher
        (set_at 65 iv (set_at 0 eph_pub (zeros (sealed_prefix_len + length wrap_cipher))))

  -- `sealSymmetricKey`, with the random private key and the random iv
  unfoldable pub seal_symmetric_key : Bytes → Bytes → Bytes → Bytes → Result Bytes
  seal_symmetric_key eph_priv random_iv symmetric_key recipient_public_key =
      if not (has_length 32 symmetric_key)
      then thrown "symmetricKey must be 32 bytes"
      else if not (has_length 65 recipient_public_key)
          || not (or_else (first recipient_public_key) 0 == 4)
      then thrown "recipientPublicKey must be 65-byte uncompressed (0x04 prefix)"
      else (c.shared_secret eph_priv recipient_public_key then (λ secret. returned (
          sealed_bytes (c.public_key eph_priv) random_iv
            (c.gcm_encrypt (c.hkdf (drop 1 secret)) random_iv symmetric_key))))

  abbrev pub checked_key : Bytes → Result Bytes
  checked_key key =
      if not (has_length 32 key) then thrown "unwrapped key length unexpected" else returned key

  -- `unsealSymmetricKey`
  unfoldable pub unseal_symmetric_key : Bytes → Bytes → Result Bytes
  unseal_symmetric_key sealed_key recipient_private_key =
      if ltb (length sealed_key) (sealed_prefix_len + 16)
      then thrown "sealedKey too short"
      else (c.shared_secret recipient_private_key (take 65 sealed_key) then (λ secret.
          c.gcm_decrypt (c.hkdf (drop 1 secret)) (drop 65 (take sealed_prefix_len sealed_key))
            (drop sealed_prefix_len sealed_key)
          then checked_key))
