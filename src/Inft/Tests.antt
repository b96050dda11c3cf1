-- ===== src/Inft/Tests.antt =====
-- A bundle, its key sealed for a recipient, under a cipher that appends a tag.
use federated_reserve.Prelude.{
  none, some, [], ◌∷◌, ◌++◌, ◌≡◌, refl, ap, true, length, take, ◌-◌, arith, length-append,
}
use federated_reserve.Inft.Crypto.{
  Bytes, returned, ◌then◌, Primitives, BundleCipher, zeros, encrypt_bundle, decrypt_bundle,
  seal_symmetric_key, unseal_symmetric_key,
}
use federated_reserve.Inft.Crypto.RoundTrip.{
  IsSound, decrypt_bundle-encrypt_bundle, unseal_symmetric_key-seal_symmetric_key,
  opens_sealed_bundle,
}
use federated_reserve.Inft.Crypto.Frames.{take-append}

abbrev tagging : Primitives
tagging = record {
  gcm_encrypt = λ key iv text. text ++ zeros 16;
  gcm_decrypt = λ key iv text. returned (take (length text - 16) text);
  keccak_256 = λ text. zeros 32;
  is_valid_private_key = λ key. true;
  public_key = λ key. 4 ∷ zeros 64;
  shared_secret = λ mine theirs. returned (zeros 33);
  hkdf = λ secret. zeros 32;
}

the_tag :
    (bytes : Bytes)
    → returned (take (length (bytes ++ zeros 16) - 16) (bytes ++ zeros 16)) ≡ returned bytes
the_tag bytes = ap returned (
    take-append (length (bytes ++ zeros 16) - 16) bytes (zeros 16)
      (omega (arith, length-append bytes (zeros 16))))

tagging-IsSound : IsSound tagging
tagging-IsSound = record {
  opens = λ key iv text h. the_tag text;
  tagged = λ key iv text. length-append text (zeros 16);
  uncompressed = λ a v. (refl, refl);
  agrees = λ a b v w. (zeros 33, refl, refl);
  derived = λ secret. refl;
}

abbrev text : Bytes
text = 123 ∷ 125 ∷ []

abbrev own_key : Bytes
own_key = 7 ∷ zeros 31

decrypt_bundle-encrypt_bundle_example :
    (b : BundleCipher) × (encrypt_bundle tagging (zeros 32) (zeros 12) text (some own_key)
      ≡ returned b)
    × (b.symmetric_key ≡ own_key)
    × (length b.blob ≡ 30)
    × (decrypt_bundle tagging b.blob b.symmetric_key ≡ returned text)
decrypt_bundle-encrypt_bundle_example =
    decrypt_bundle-encrypt_bundle tagging (zeros 32) (zeros 12) text (some own_key) tagging-IsSound
      refl refl

unseal_symmetric_key-seal_symmetric_key_example :
    (out : Bytes) × (seal_symmetric_key tagging
        (zeros 32)
        (zeros 12)
        own_key
        (tagging.public_key (zeros 32))
      ≡ returned out)
    × (length out ≡ 125)
    × (unseal_symmetric_key tagging out (zeros 32) ≡ returned own_key)
unseal_symmetric_key-seal_symmetric_key_example =
    unseal_symmetric_key-seal_symmetric_key tagging (zeros 32) (zeros 32) (zeros 12) own_key
      tagging-IsSound refl refl refl refl

opens_sealed_bundle_example :
    (encrypt_bundle tagging own_key (zeros 12) text none then (λ b.
      seal_symmetric_key tagging
        (zeros 32)
        (zeros 12)
        b.symmetric_key
        (tagging.public_key (zeros 32))
      then (λ out.
          unseal_symmetric_key tagging out (zeros 32)
          then (λ key. decrypt_bundle tagging b.blob key))))
    ≡ returned text
opens_sealed_bundle_example =
    opens_sealed_bundle tagging own_key (zeros 12) text (zeros 32) (zeros 12) (zeros 32)
      tagging-IsSound refl refl refl refl refl
