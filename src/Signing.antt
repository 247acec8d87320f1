-- ===== src/Signing.antt =====
-- DSSE envelopes of crates/akua-core/src/cosign.rs and the attestations of slsa.rs. The cryptography, base64
-- and JSON are arguments.
pub mod Encoding
pub mod Signed
mod Tests
use akua.Base.{
  ℕ, Bool, false, Option, none, some, List, [], ◌∷◌, ◌++◌, map, Result, ok, err, ◌>>=◌, map_err,
  length, if◌then◌else◌,
}
use akua.Base.Maps.{Map}
use akua.Base.Texts.{Text, codes, split_once}
use akua.Lock.{AkuaLock, LockedPackage}
use akua.Resolver.Fetching.{unwrap_or}

-- The pre-authentication encoding. `decimal` is `to_string` of a number.
unfoldable pub dsse_pae : (decimal : ℕ → Text) → (payload_type payload : Text) → Text
dsse_pae decimal payload_type payload =
    codes "DSSEv1 "
    ++ (decimal (length payload_type)
        ++ (b' ' ∷ (payload_type ++ (b' ' ∷ (decimal (length payload) ++ (b' ' ∷ payload))))))

pub record DsseSignature : Type 0 where
  pub sig : Text
  pub keyid : Option Text

pub record DsseEnvelope : Type 0 where
  pub payload_type : Text
  pub payload : Text
  pub signatures : List DsseSignature

-- The errors that `verify_dsse` gives.
pub data CosignError (JsonError : Type 0) : Type 0 where
  bad_payload : JsonError → CosignError JsonError
  bad_signature : Text → CosignError JsonError
  bad_public_key : Text → CosignError JsonError
  verify_failed : Text → CosignError JsonError

-- The libraries: `signature_of` reads a signature as DER or as its raw bytes.
pub record Crypto (JsonError PublicKey Signature : Type 0) : Type 0 where
  pub envelope_from_slice : Text → Result JsonError DsseEnvelope
  pub decode_base64 : Text → Result Text Text
  pub public_key_from_pem : Text → Result Text PublicKey
  pub signature_of : Text → Option Signature
  pub verify : PublicKey → Text → Signature → Bool
  pub decimal : ℕ → Text

module _ {JsonError PublicKey Signature : Type 0}
    (crypto : Crypto JsonError PublicKey Signature) where
  -- Whether one entry of the envelope verifies.
  unfoldable pub entry_verifies : PublicKey → Text → DsseSignature → Bool
  entry_verifies key pae entry = elim (crypto.decode_base64 entry.sig) [
    | err _ ↦ false
    | ok sig_bytes ↦ elim (crypto.signature_of sig_bytes) [
      | none ↦ false
      | some signature ↦ crypto.verify key pae signature
    ]
  ]

  -- The loop over the signatures.
  unfoldable pub verify_any :
      PublicKey → Text → Text → List DsseSignature → Result (CosignError JsonError) Text
  unfolding entry_verifies
  verify_any key pae payload [] =
      err (verify_failed (codes "no DSSE signature verified against the supplied public key"))
  verify_any key pae payload (entry ∷ rest) =
      let later = verify_any key pae payload rest in
      if entry_verifies key pae entry then ok payload else later

  unfoldable pub verify_dsse : Text → Text → Result (CosignError JsonError) Text
  unfolding dsse_pae verify_any
  verify_dsse public_key_pem envelope_bytes = do
    envelope ← map_err bad_payload (crypto.envelope_from_slice envelope_bytes)
    payload ← map_err bad_signature (crypto.decode_base64 envelope.payload)
    key ← map_err bad_public_key (crypto.public_key_from_pem public_key_pem)
    verify_any key (dsse_pae crypto.decimal envelope.payload_type payload) payload
        envelope.signatures

pub record Subject : Type 0 where
  pub name : Text
  pub digest : Map Text Text

pub record ResourceDescriptor : Type 0 where
  pub name : Text
  pub digest : Map Text Text
  pub uri : Option Text

pub record ExternalParameters : Type 0 where
  pub oci_ref : Text
  pub tag : Text

pub record BuildDefinition : Type 0 where
  pub build_type : Text
  pub external_parameters : ExternalParameters
  pub resolved_dependencies : List ResourceDescriptor

pub record Builder : Type 0 where
  pub id : Text

pub record RunDetails : Type 0 where
  pub builder : Builder

pub record SlsaProvenance : Type 0 where
  pub build_definition : BuildDefinition
  pub run_details : RunDetails

pub record InTotoStatement : Type 0 where
  pub ty : Text
  pub subject : List Subject
  pub predicate_type : Text
  pub predicate : SlsaProvenance

unfoldable pub split_digest : Text → Text × Text
unfolding split_once
split_digest d = unwrap_or (codes "sha256", d) (split_once b':' d)

lock_entry_to_resource : LockedPackage → ResourceDescriptor
unfolding split_digest
lock_entry_to_resource pkg = record {
  name = pkg.name;
  digest = split_digest pkg.digest ∷ [];
  uri = some pkg.source;
}

optional_packages : Option AkuaLock → List LockedPackage
optional_packages none = []
optional_packages (some lock) = lock.packages

-- `version` is the crate's, which the build sets.
unfoldable pub build_publish_attestation :
    (version subject_name manifest_digest oci_ref tag : Text) → Option AkuaLock → InTotoStatement
unfolding split_digest lock_entry_to_resource optional_packages
build_publish_attestation version subject_name manifest_digest oci_ref tag lock = record {
  ty = codes "https://in-toto.io/Statement/v1";
  subject = record { name = subject_name; digest = split_digest manifest_digest ∷ [] } ∷ [];
  predicate_type = codes "https://slsa.dev/provenance/v1";
  predicate = record {
    build_definition = record {
      build_type = codes "https://akua.dev/slsa/publish/v1";
      external_parameters = record { oci_ref = oci_ref; tag = tag };
      resolved_dependencies = map lock_entry_to_resource (optional_packages lock);
    };
    run_details = record {
      builder = record { id = codes "https://cli.akua.dev/cli/v" ++ version };
    };
  };
}
