-- ===== src/Signing/Signed.antt =====
-- What `verify_dsse` has verified.
use akua.Base.{
  ◌≡◌, refl, sym, ap, ◌∙◌, true, Bool-cases, inl, inr, List, [], ◌∷◌, Result, ok, map_err,
  map_err-ok, subst, >>=-eq-ok, In, here, there,
}
use akua.Base.Texts.{Text}
use akua.Signing.{
  Crypto, DsseEnvelope, DsseSignature, bad_payload, bad_signature, bad_public_key, dsse_pae,
  entry_verifies, verify_any, verify_dsse,
}

ok_text : {E : Type 0} {a b : Text} → ◌≡◌ {A = Result E Text} (ok a) (ok b) → a ≡ b
ok_text h = cc

module _ {JsonError PublicKey Signature : Type 0}
    (crypto : Crypto JsonError PublicKey Signature) where
  verify_any-ok :
      (key : PublicKey) (pae payload : Text) (sigs : List DsseSignature) (bytes : Text)
      → verify_any crypto key pae payload sigs ≡ ok bytes
      → (bytes ≡ payload)
        × ((sig : DsseSignature) × In sig sigs × (entry_verifies crypto key pae sig ≡ true))
  unfolding verify_any
  verify_any-ok key pae payload [] bytes h = cc
  verify_any-ok key pae payload (sig ∷ rest) bytes h =
      elim (Bool-cases (entry_verifies crypto key pae sig)) [
        | inl good ↦ (sym (ok_text (rw good at h)), (sig, here refl, good))
        | inr bad ↦
            let (same, (other, within, good)) =
              verify_any-ok key pae payload rest bytes (rw bad at h) in
            (same, (other, there within, good))
      ]

  -- Where `verify_dsse` returns bytes, the envelope and the key were read, the bytes are the envelope's payload, and
  -- one of its signatures verifies under the key over the encoding of the envelope's type and those bytes.
  pub verify_dsse-signed :
      (public_key_pem envelope_bytes : Text) {bytes : Text}
      → verify_dsse crypto public_key_pem envelope_bytes ≡ ok bytes
      → (envelope : DsseEnvelope) × (key : PublicKey) × (sig : DsseSignature)
        × (crypto.envelope_from_slice envelope_bytes ≡ ok envelope)
        × (crypto.public_key_from_pem public_key_pem ≡ ok key)
        × (crypto.decode_base64 envelope.payload ≡ ok bytes)
        × In sig envelope.signatures
        × (entry_verifies crypto key (dsse_pae crypto.decimal envelope.payload_type bytes) sig
            ≡ true)
  unfolding verify_dsse
  verify_dsse-signed public_key_pem envelope_bytes {bytes} h =
      let (envelope, h1, k1) =
        >>=-eq-ok (map_err bad_payload (crypto.envelope_from_slice envelope_bytes)) _ h in
      let (payload, h2, k2) =
        >>=-eq-ok (map_err bad_signature (crypto.decode_base64 envelope.payload)) _ k1 in
      let (key, h3, k3) =
        >>=-eq-ok (map_err bad_public_key (crypto.public_key_from_pem public_key_pem)) _ k2 in
      let (same, (sig, within, good)) =
        verify_any-ok key (dsse_pae crypto.decimal envelope.payload_type payload) payload
          envelope.signatures bytes k3 in
      (
        envelope,
        key,
        sig,
        map_err-ok bad_payload (crypto.envelope_from_slice envelope_bytes) h1,
        map_err-ok bad_public_key (crypto.public_key_from_pem public_key_pem) h3,
        map_err-ok bad_signature (crypto.decode_base64 envelope.payload) h2 ∙ ap ok (sym same),
        within,
        subst
            (λ p.
              entry_verifies crypto key (dsse_pae crypto.decimal envelope.payload_type p) sig
              ≡ true)
            (sym same) good,
      )
