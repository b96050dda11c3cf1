-- ===== src/Inft/Crypto/RoundTrip.antt =====
-- What comes back from the wire formats of packages/og-inft/src/crypto.ts.
use federated_reserve.Prelude.{
  ℕ, ◌+◌, Option, none, some, [], ◌++◌, ◌≡◌, ◌∙◌, refl, sym, ap, subst, true, false, if◌then◌else◌,
  ltb, nat_eq, length, take, drop, first, or_else, arith, length-append, append_assoc,
}
use federated_reserve.Inft.Crypto.{
  Bytes, returned, ◌then◌, Primitives, BundleCipher, zeros, set_at, has_length, sealed_prefix_len,
  sealed_bytes, seal_blob, encrypt_bundle, decrypt_bundle, seal_symmetric_key, unseal_symmetric_key,
}
use federated_reserve.Inft.Crypto.Frames.{
  take-append, drop-append_length, set_at-append, set_at_last,
}

-- What the libraries promise of keys of 32 bytes and of private keys that are valid.
pub record IsSound (c : Primitives) : Type 0 where
  pub opens :
      (key iv text : Bytes)
      → length key ≡ 32
      → c.gcm_decrypt key iv (c.gcm_encrypt key iv text) ≡ returned text
  pub tagged : (key iv text : Bytes) → length (c.gcm_encrypt key iv text) ≡ length text + 16
  pub uncompressed :
      (a : Bytes)
      → c.is_valid_private_key a ≡ true
      → (length (c.public_key a) ≡ 65) × (first (c.public_key a) ≡ some 4)
  pub agrees :
      (a b : Bytes)
      → c.is_valid_private_key a ≡ true
      → c.is_valid_private_key b ≡ true
      → (secret : Bytes) × (c.shared_secret a (c.public_key b) ≡ returned secret)
        × (c.shared_secret b (c.public_key a) ≡ returned secret)
  pub derived : (secret : Bytes) → length (c.hkdf secret) ≡ 32

framed :
    (iv ciphertext : Bytes)
    → set_at (length iv) ciphertext (set_at 0 iv (zeros (length iv + length ciphertext)))
      ≡ iv ++ ciphertext
framed iv ciphertext =
    ap (set_at (length iv) ciphertext) (set_at-append 0 (length ciphertext) [] iv refl)
    ∙ set_at_last (length iv) iv ciphertext refl

module _ (c : Primitives) where
  sealed :
      (eph_pub iv wrap : Bytes)
      → length eph_pub ≡ 65
      → length iv ≡ 12
      → sealed_bytes c eph_pub iv wrap ≡ (eph_pub ++ iv) ++ wrap
  sealed eph_pub iv wrap e i =
      let size : sealed_prefix_len + length wrap ≡ length eph_pub + (length iv + length wrap) =
        omega (arith, e, i) in
      ap (λ n. set_at sealed_prefix_len wrap (set_at 65 iv (set_at 0 eph_pub (zeros n)))) size
      ∙ ap (λ t. set_at sealed_prefix_len wrap (set_at 65 iv t))
          (set_at-append 0 (length iv + length wrap) [] eph_pub refl)
      ∙ ap (set_at sealed_prefix_len wrap) (set_at-append 65 (length wrap) eph_pub iv e)
      ∙ set_at_last sealed_prefix_len (eph_pub ++ iv) wrap
          (omega (arith, length-append eph_pub iv, e, i))

  has : (n : ℕ) (bytes : Bytes) → length bytes ≡ n → has_length n bytes ≡ true
  has n bytes h = (nat_eq.same_iff (length bytes) n).1 h

  decrypt_framed :
      (key iv text : Bytes)
      → IsSound c
      → length key ≡ 32
      → length iv ≡ 12
      → decrypt_bundle c (iv ++ c.gcm_encrypt key iv text) key ≡ returned text
  unfolding decrypt_bundle
  decrypt_framed key iv text s k i =
      let ciphertext : Bytes = c.gcm_encrypt key iv text in
      let size : length (iv ++ ciphertext) ≡ length text + 28 =
        omega (arith, length-append iv ciphertext, s.tagged key iv text, i) in
      let long : ltb (length (iv ++ ciphertext)) (12 + 16) ≡ false = ground (arith, size) in
      rw (long, take-append 12 iv ciphertext i, drop-append_length 12 iv ciphertext i)
        (s.opens key iv text k)

  -- A bundle that is encrypted, under the key that is given or else under a random one, is 28 bytes
  -- longer than its text, and decrypts under the key that comes with it to the text; that is the
  -- key that was used, if it has 32 bytes and the iv 12.
  pub decrypt_bundle-encrypt_bundle :
      (random_key iv text : Bytes) (given : Option Bytes)
      → IsSound c
      → length (or_else given random_key) ≡ 32
      → length iv ≡ 12
      → (b : BundleCipher) × (encrypt_bundle c random_key iv text given ≡ returned b)
        × (b.symmetric_key ≡ or_else given random_key)
        × (length b.blob ≡ length text + 28)
        × (decrypt_bundle c b.blob b.symmetric_key ≡ returned text)
  unfolding encrypt_bundle
  decrypt_bundle-encrypt_bundle random_key iv text given s k i =
      let key : Bytes = or_else given random_key in
      let ciphertext : Bytes = c.gcm_encrypt key iv text in
      (
        seal_blob c key iv text,
        rw (has 32 key k) refl,
        refl,
        ap length (framed iv ciphertext)
            ∙ omega (arith, length-append iv ciphertext, s.tagged key iv text, i),
        subst (λ t. decrypt_bundle c t key ≡ returned text) (sym (framed iv ciphertext))
            (decrypt_framed key iv text s k i),
      )

  unseal_framed :
      (eph_priv recipient iv key secret : Bytes)
      → IsSound c
      → c.is_valid_private_key eph_priv ≡ true
      → c.shared_secret recipient (c.public_key eph_priv) ≡ returned secret
      → length key ≡ 32
      → length iv ≡ 12
      → unseal_symmetric_key c
          ((c.public_key eph_priv ++ iv) ++ c.gcm_encrypt (c.hkdf (drop 1 secret)) iv key)
          recipient
        ≡ returned key
  unfolding unseal_symmetric_key
  unseal_framed eph_priv recipient iv key secret s v agreed k i =
      let pub_key : Bytes = c.public_key eph_priv in
      let wrap_key : Bytes = c.hkdf (drop 1 secret) in
      let wrap : Bytes = c.gcm_encrypt wrap_key iv key in
      let e : length pub_key ≡ 65 = (s.uncompressed eph_priv v).0 in
      let prefix : length (pub_key ++ iv) ≡ sealed_prefix_len =
        omega (arith, length-append pub_key iv, e, i) in
      let size : length ((pub_key ++ iv) ++ wrap) ≡ 125 =
        omega (arith, length-append (pub_key ++ iv) wrap, prefix, s.tagged wrap_key iv key, k) in
      let long : ltb (length ((pub_key ++ iv) ++ wrap)) (sealed_prefix_len + 16) ≡ false =
        ground (arith, size) in
      let front : take 65 ((pub_key ++ iv) ++ wrap) ≡ pub_key =
        ap (take 65) (append_assoc pub_key iv wrap) ∙ take-append 65 pub_key (iv ++ wrap) e in
      rw
        (
          long,
          front,
          agreed,
          take-append sealed_prefix_len (pub_key ++ iv) wrap prefix,
          drop-append_length sealed_prefix_len (pub_key ++ iv) wrap prefix,
          drop-append_length 65 pub_key iv e,
          s.opens wrap_key iv key (s.derived (drop 1 secret)),
          has 32 key k,
        )
        refl

  -- A key of 32 bytes that is sealed for the public key of a recipient makes 125 bytes, which the
  -- recipient's private key unseals to the key.
  pub unseal_symmetric_key-seal_symmetric_key :
      (eph_priv recipient iv key : Bytes)
      → IsSound c
      → c.is_valid_private_key eph_priv ≡ true
      → c.is_valid_private_key recipient ≡ true
      → length key ≡ 32
      → length iv ≡ 12
      → (out : Bytes) × (seal_symmetric_key c eph_priv iv key (c.public_key recipient)
          ≡ returned out)
        × (length out ≡ 125)
        × (unseal_symmetric_key c out recipient ≡ returned key)
  unfolding seal_symmetric_key
  unseal_symmetric_key-seal_symmetric_key eph_priv recipient iv key s v w k i =
      let pub_key : Bytes = c.public_key eph_priv in
      let (secret, mine, theirs) = s.agrees eph_priv recipient v w in
      let wrap_key : Bytes = c.hkdf (drop 1 secret) in
      let wrap : Bytes = c.gcm_encrypt wrap_key iv key in
      let e : length pub_key ≡ 65 = (s.uncompressed eph_priv v).0 in
      let (long, prefixed) = s.uncompressed recipient w in
      let same : sealed_bytes c pub_key iv wrap ≡ (pub_key ++ iv) ++ wrap =
        sealed pub_key iv wrap e i in
      (
        sealed_bytes c pub_key iv wrap,
        rw (has 32 key k, has 65 (c.public_key recipient) long, prefixed, mine) refl,
        ap length same
            ∙ omega (
              arith,
              length-append (pub_key ++ iv) wrap,
              length-append pub_key iv,
              e,
              i,
              s.tagged wrap_key iv key,
              k,
            ),
        subst (λ t. unseal_symmetric_key c t recipient ≡ returned key) (sym same)
            (unseal_framed eph_priv recipient iv key secret s v theirs k i),
      )

  -- Whoever holds the private key of the recipient reads the bundle: what encrypting a text,
  -- sealing its key, unsealing it and decrypting give is the text.
  pub opens_sealed_bundle :
      (random_key iv text eph_priv seal_iv recipient : Bytes)
      → IsSound c
      → length random_key ≡ 32
      → length iv ≡ 12
      → c.is_valid_private_key eph_priv ≡ true
      → c.is_valid_private_key recipient ≡ true
      → length seal_iv ≡ 12
      → (encrypt_bundle c random_key iv text none then (λ b.
          seal_symmetric_key c eph_priv seal_iv b.symmetric_key (c.public_key recipient)
          then (λ out.
              unseal_symmetric_key c out recipient then (λ key. decrypt_bundle c b.blob key))))
        ≡ returned text
  opens_sealed_bundle random_key iv text eph_priv seal_iv recipient s k i v w j =
      let (b, made, own, _, opened) = decrypt_bundle-encrypt_bundle random_key iv text none s k i in
      let (out, sealed_out, _, unsealed) =
        unseal_symmetric_key-seal_symmetric_key eph_priv recipient seal_iv random_key s v w k j in
      rw (made, own, sealed_out, unsealed)
        (subst (λ key. decrypt_bundle c b.blob key ≡ returned text) own opened)
