-- ===== src/Tools/Keygen.antt =====
-- tools/keygen/src/main.rs: the arguments, and the run that makes a key pair, writes the secret key's
-- file, tests the keys and makes the entry of the public key set.
pub mod Written
pub mod Arguments
use provii_crypto.Prelude.{
  ℕ, ◌≡◌, ◌||◌, Bool, List, [], ◌∷◌, ◌++◌, Option, some, none, Result, ok, err, if◌then◌else◌,
  ◌>>=◌, ok_or, false,
}
use Prim.Native.String.{String}
use provii_crypto.Prelude.Bytes.{codes, bytes_eq}
use provii_crypto.Signature.Primitives.{Jubjub}
use provii_crypto.Signature.{
  RedJubjubError, sign_cred_v2, verify_cred_v2, generate_keypair_with_rng,
}
use provii_crypto.Tools.{Encoders, FileSystem, test_msg}

-- What the arguments ask for.
pub data Request : Type 0 where
  show_help show_version : Request
  generate : List ℕ → Request

pub data UsageError : Type 0 where
  missing_output_path : UsageError
  unknown_argument : List ℕ → UsageError

abbrev pub is_either : List ℕ → List ℕ → List ℕ → Bool
is_either a b argument = bytes_eq argument a || bytes_eq argument b

abbrev pub asks_help : List ℕ → Bool
asks_help = is_either (codes "--help") (codes "-h")

abbrev pub asks_version : List ℕ → Bool
asks_version = is_either (codes "--version") (codes "-V")

abbrev pub asks_output : List ℕ → Bool
asks_output = is_either (codes "--output") (codes "-o")

-- The `while` loop over the arguments, with the output file found so far.
unfoldable pub parse_args : List (List ℕ) → List ℕ → Result UsageError Request
parse_args [] output_file = ok (generate output_file)
parse_args (arg ∷ []) output_file =
    if asks_help arg
    then ok show_help
    else if asks_version arg
    then ok show_version
    else if asks_output arg
    then err missing_output_path
    else err (unknown_argument arg)
parse_args (arg ∷ value ∷ rest) output_file =
    let parsed = parse_args rest value in
    if asks_help arg
    then ok show_help
    else if asks_version arg
    then ok show_version
    else if asks_output arg
    then parsed
    else err (unknown_argument arg)

abbrev pub default_output : List ℕ
default_output = codes "issuer_secret_key.json"

module _ (J : Jubjub) (E : Encoders) (F : FileSystem) where
  pub data RunError : Type 0 where
    usage : UsageError → RunError
    io_failed : F.IoError → RunError
    signature_creation_failed signature_verification_failed : RedJubjubError → RunError
    not_a_point : RunError

  -- `map_err` that keeps the error.
  abbrev pub tested {α} :
      {A : Type α} → (RedJubjubError → RunError) → Result RedJubjubError A → Result RunError A
  tested label (ok a) = ok a
  tested label (err e) = err (label e)

  abbrev pub member : String → List ℕ → List ℕ × E.Json
  member name value = (codes name, E.text value)

  -- `sk_json`, `kv_value` and the entry of the key set, but for its display name.
  unfoldable pub secret_json : List ℕ → List ℕ → List ℕ
  secret_json sk_bytes vk_bytes = E.to_string (
      E.object (
        member "sk_hex" (E.hex sk_bytes)
        ∷ member "sk_b64u" (E.base64url sk_bytes)
        ∷ member "vk_hex" (E.hex vk_bytes)
        ∷ member "vk_b64u" (E.base64url vk_bytes)
        ∷ []))

  unfoldable pub kv_value : List ℕ → List ℕ → List ℕ
  kv_value sk_bytes vk_bytes =
      E.to_string
        (E.object (member "sk" (E.base64url sk_bytes) ∷ member "vk" (E.base64url vk_bytes) ∷ []))

  -- `kid`: the month of the day as `%Y-%m`.
  abbrev pub kid_of : List ℕ → List ℕ
  kid_of month = codes "provii:" ++ month

  unfoldable pub jwks_entry : List ℕ → List ℕ → List ℕ → E.Json
  jwks_entry month month_name vk_bytes = E.object (
      member "kty" (codes "OKP")
      ∷ member "crv" (codes "JUBJUB")
      ∷ member "kid" (kid_of month)
      ∷ member "use" (codes "sig")
      ∷ member "alg" (codes "RedJubjub")
      ∷ member "x" (E.base64url vk_bytes)
      ∷ member "name" (codes "Provii Issuer (" ++ (month_name ++ codes ")"))
      ∷ (codes "revoked", E.boolean false)
      ∷ [])

  -- What a run has made: the key and the value of the entry in the key store, and the public entry.
  pub record Made : Type 0 where
    pub kv_key : List ℕ
    pub kv_entry : List ℕ
    pub jwks : E.Json

  -- The part of `main` behind the writing of the file: the tests of the keys.
  unfoldable pub check_keys : List ℕ → List ℕ → List ℕ × List ℕ → Result RunError Made
  check_keys month month_name keys = do
    sig ← tested signature_creation_failed (sign_cred_v2 J (test_msg (kid_of month)) keys.0)
    _ ← tested signature_verification_failed (verify_cred_v2 J (test_msg (kid_of month)) sig keys.1)
    _ ← ok_or (J.point_from_bytes keys.1) not_a_point
    ok (record {
      kv_key = codes "rj:keypair:" ++ kid_of month;
      kv_entry = kv_value keys.0 keys.1;
      jwks = jwks_entry month month_name keys.1;
    })

  -- `?` behind a file operation.
  abbrev pub then_do :
      F.Files × Result F.IoError (Unit {0})
      → (F.Files → F.Files × Result RunError Made)
      → F.Files × Result RunError Made
  then_do (s, ok _) next = next s
  then_do (s, err e) next = (s, err (io_failed e))

  -- The file gets mode 0600, on Unix only.
  abbrev pub restrict_mode : F.Files → List ℕ → F.Files × Result F.IoError (Unit {0})
  restrict_mode files path = if F.is_unix then F.set_permissions files path 384 else (files, ok tt)

  -- `main` behind the arguments. The drawn scalar and the texts of the date are arguments.
  unfoldable pub run :
      J.Scalar → List ℕ → List ℕ → F.Files → List ℕ → F.Files × Result RunError Made
  run drawn month month_name files output_file =
      let keys = generate_keypair_with_rng J drawn in
      then_do (F.write files output_file (secret_json keys.0 keys.1)) λ written.
        then_do (restrict_mode written output_file)
          λ closed. (closed, check_keys month month_name keys)

  abbrev pub made_some : Result RunError Made → Result RunError (Option Made)
  made_some r = r >>= λ made. ok (some made)

  unfoldable pub main :
      List (List ℕ) → J.Scalar → List ℕ → List ℕ → F.Files → F.Files × Result RunError (Option Made)
  main arguments drawn month month_name files = elim (parse_args arguments default_output) [
    | err e ↦ (files, err (usage e))
    | ok request ↦ elim request [
      | show_help ↦ (files, ok none)
      | show_version ↦ (files, ok none)
      | generate output_file ↦
          let ran = run drawn month month_name files output_file in (ran.0, made_some ran.1)
    ]
  ]
