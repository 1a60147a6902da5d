-- ===== src/Tools.antt =====
-- tools/keygen/src/main.rs and tools/issuer-gen/src/main.rs: the command-line tools that make an
-- issuer's keys. This file has what both do with a fresh key pair, and what they use of other crates.
-- Text printed to the terminal is left out; a run gives the tool's result, or the error that ends it.
pub mod SelfTest
pub mod Keygen
pub mod IssuerGen
pub mod Params
mod Tests
use provii_crypto.Prelude.{
  ℕ, ◌≡◌, Bool, List, [], ◌∷◌, Option, some, Result, ok, err, replicate, ◌>>=◌,
}
use provii_crypto.Prelude.Bytes.{codes}
use provii_crypto.Credential.{CredMsgV2}
use provii_crypto.Signature.Primitives.{Jubjub}
use provii_crypto.Signature.{RedJubjubError, sign_cred_v2, verify_cred_v2}

-- `hex::encode`, `URL_SAFE_NO_PAD.encode` and the texts of `serde_json` objects, whose members are
-- named by byte strings.
pub record Encoders : Type 1 where
  pub hex : List ℕ → List ℕ
  pub base64url : List ℕ → List ℕ
  pub Json : Type 0
  pub text : List ℕ → Json
  pub boolean : Bool → Json
  pub number : ℕ → Json
  pub object : List (List ℕ × Json) → Json
  pub to_string : Json → List ℕ

-- `std::fs`: writing a whole file, and setting its permissions, which may fail and may change the
-- files also then. What was written is read back, and permissions do not change a file's content.
-- `is_unix` is `cfg(unix)`.
pub record FileSystem : Type 1 where
  pub is_unix : Bool
  pub Files : Type 0
  pub IoError : Type 0
  pub read : Files → List ℕ → Option (List ℕ)
  pub mode_of : Files → List ℕ → Option ℕ
  pub write : Files → List ℕ → List ℕ → Files × Result IoError (Unit {0})
  pub set_permissions : Files → List ℕ → ℕ → Files × Result IoError (Unit {0})
  pub write_reads :
      (s : Files) (path content : List ℕ)
      → (write s path content).1 ≡ ok tt
      → read (write s path content).0 path ≡ some content
  pub set_permissions_reads :
      (s : Files) (path : List ℕ) (mode : ℕ)
      → (set_permissions s path mode).1 ≡ ok tt
      → (read (set_permissions s path mode).0 path ≡ read s path)
        × (mode_of (set_permissions s path mode).0 path ≡ some mode)

-- The sample message that a new key pair signs.
abbrev pub test_msg : List ℕ → CredMsgV2
test_msg kid = record {
  v = 2;
  kid = kid;
  c = replicate 32 42;
  iat = 1704067200;
  exp = 1735689600;
  schema = codes "test";
}

-- Signing the message with the secret half and verifying with the public one.
unfoldable pub sign_and_verify :
    (J : Jubjub) → CredMsgV2 → List ℕ × List ℕ → Result RedJubjubError (Unit {0})
sign_and_verify J m keys = do sig ← sign_cred_v2 J m keys.0; verify_cred_v2 J m sig keys.1
