-- ===== src/Credential/Tests.antt =====
-- A credential message, its prehash, and the theorems at it.
use provii_crypto.Prelude.{◌≡◌, refl, arith, [], ◌∷◌, ok, replicate}
use provii_crypto.Prelude.Bytes.{codes, to_be_bytes}
use provii_crypto.Credential.{CredMsgV2, IsTyped, prehash, cred_v2_prehash_bytes}
use provii_crypto.Credential.Layout.{layout, prehash-Fits, prehash_inj}

abbrev pub sample : CredMsgV2
sample = record {
  v = 2;
  kid = codes "kid";
  c = replicate 32 7;
  iat = 258;
  exp = 513;
  schema = codes "age";
}

pub sample-IsTyped : IsTyped sample
sample-IsTyped = omega arith

sample_starts :
    prehash (record sample { kid = []; c = []; schema = [] })
    ≡ ok (
        112 ∷ 114 ∷ 111 ∷ 118 ∷ 105 ∷ 105 ∷ 46 ∷ 99 ∷ 114 ∷ 101 ∷ 100 ∷ 46 ∷ 118 ∷ 48 ∷ 2 ∷ 0 ∷ 0
        ∷ 0 ∷ 0 ∷ 0 ∷ 0 ∷ 0 ∷ 1 ∷ 2 ∷ 0 ∷ 0 ∷ 0 ∷ 0 ∷ 0 ∷ 0 ∷ 2 ∷ 1 ∷ 0 ∷ [])
unfolding cred_v2_prehash_bytes to_be_bytes
sample_starts = refl

prehash_inj_example : sample ≡ sample
prehash_inj_example =
    prehash_inj sample sample sample-IsTyped sample-IsTyped (layout sample)
      (prehash-Fits sample (omega arith)) (prehash-Fits sample (omega arith))
