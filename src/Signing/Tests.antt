-- ===== src/Signing/Tests.antt =====
-- Encodings and envelopes at concrete inputs. The numbers stand in unary.
use akua.Base.{
  ℕ, zero, suc, ◌≡◌, refl, true, false, none, some, [], ◌∷◌, ok, In, arith, ◌==◌, nat_eq, length,
}
use akua.Base.Texts.{Text, codes, contains_char}
use akua.Signing.{
  Crypto, DsseEnvelope, DsseSignature, dsse_pae, entry_verifies, verify_dsse, split_digest,
}
use akua.Signing.Encoding.{dsse_pae-injective}
use akua.Signing.Signed.{verify_dsse-signed}

abbrev unary : ℕ → Text
unary zero = []
unary (suc n) = b'1' ∷ unary n

unary-no_space : (n : ℕ) → contains_char b' ' (unary n) ≡ false
unfolding contains_char
unary-no_space zero = refl
unary-no_space (suc n) = unary-no_space n

unary-injective : (m n : ℕ) → unary m ≡ unary n → m ≡ n
unary-injective zero zero e = refl
unary-injective zero (suc n) e = cc
unary-injective (suc m) zero e = cc
unary-injective (suc m) (suc n) e = ground (arith, unary-injective m n)

dsse_pae-injective_example : (codes "a b" ≡ codes "a b") × (codes "p 1" ≡ codes "p 1")
dsse_pae-injective_example =
    dsse_pae-injective unary unary-no_space unary-injective (codes "a b") (codes "p 1")
      (codes "a b") (codes "p 1") refl

abbrev test_envelope : DsseEnvelope
test_envelope = record {
  payload_type = codes "t";
  payload = codes "p";
  signatures =
      record { sig = codes "bad"; keyid = none } ∷ record { sig = codes "g"; keyid = none } ∷ [];
}

abbrev test_crypto : Crypto ℕ ℕ Text
test_crypto = record {
  envelope_from_slice = λ _. ok test_envelope;
  decode_base64 = λ s. ok s;
  public_key_from_pem = λ s. ok (length s);
  signature_of = λ s. some s;
  verify = λ key pae s. length s == key;
  decimal = unary;
}

verify_dsse-signed_example :
    (envelope : DsseEnvelope) × (key : ℕ) × (sig : DsseSignature) × (test_crypto.envelope_from_slice
        []
      ≡ ok envelope)
    × (test_crypto.public_key_from_pem (codes "k") ≡ ok key)
    × (test_crypto.decode_base64 envelope.payload ≡ ok (codes "p"))
    × In sig envelope.signatures
    × (entry_verifies test_crypto key
          (dsse_pae test_crypto.decimal envelope.payload_type (codes "p"))
          sig
        ≡ true)
unfolding verify_dsse
verify_dsse-signed_example = verify_dsse-signed test_crypto (codes "k") [] refl

split_digest_bare : split_digest (codes "abc") ≡ (codes "sha256", codes "abc")
unfolding split_digest
split_digest_bare = refl
