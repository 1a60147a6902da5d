-- ===== src/Credential.antt =====
-- crypto-commons/src/lib.rs: the credential message and the bytes that an issuer signs.
-- Strings are the lists of their UTF-8 bytes.
pub mod Layout
pub mod Tests
use provii_crypto.Prelude.{ℕ, ◌^◌, ◌<◌, ◌≡◌, List, ◌∷◌, ◌++◌, Result, ok, err, length, ltb, ◌||◌}
use provii_crypto.Prelude.{All, if◌then◌else◌, ok_or, ◌>>=◌}
use provii_crypto.Prelude.Bytes.{IsByte, to_be_bytes, u8_try_from}
use provii_crypto.Commons.{Error, field_too_long, cred_dst}

-- `CredMsgV2`.
pub record CredMsgV2 : Type 0 where
  pub v : ℕ
  pub kid : List ℕ
  pub c : List ℕ
  pub iat : ℕ
  pub exp : ℕ
  pub schema : List ℕ

-- What the field types of `CredMsgV2` say: a `u8`, two byte strings, a `[u8; 32]` and two `u64`s.
abbrev pub IsTyped : CredMsgV2 → Type 0
IsTyped m =
    IsByte m.v
    × All IsByte m.kid
    × All IsByte m.c
    × (length m.c ≡ 32)
    × (m.iat < 2 ^ 64)
    × (m.exp < 2 ^ 64)
    × All IsByte m.schema

unfoldable pub cred_v2_prehash_bytes : ℕ → List ℕ → List ℕ → ℕ → ℕ → List ℕ → Result Error (List ℕ)
cred_v2_prehash_bytes v kid c iat exp schema =
    if ltb 255 (length kid) || ltb 255 (length schema) then err field_too_long else do
      kid_len ← ok_or (u8_try_from (length kid)) field_too_long
      let head =
          cred_dst ++ (v ∷ kid_len ∷ (kid ++ (c ++ (to_be_bytes 8 iat ++ to_be_bytes 8 exp))))
      sch_len ← ok_or (u8_try_from (length schema)) field_too_long
      ok (head ++ (sch_len ∷ schema))

-- The call on a message's fields, as every caller makes it.
abbrev pub prehash : CredMsgV2 → Result Error (List ℕ)
prehash m = cred_v2_prehash_bytes m.v m.kid m.c m.iat m.exp m.schema
