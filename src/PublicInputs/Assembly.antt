-- ===== src/PublicInputs/Assembly.antt =====
-- The assembly of the public inputs always yields eight scalars, and the scalars determine the
-- values that the verifier supplied.
use provii_crypto.Prelude.{ℕ, ◌+◌, ◌*◌, ◌/◌, ◌^◌, ◌<◌, ◌≡◌, ap, sym, ◌∙◌, arith}
use provii_crypto.Prelude.{Bool, List, ◌++◌, length, length-append, append_inj, All, ok}
use provii_crypto.Prelude.{if◌then◌else◌, ok-injective}
use provii_crypto.Prelude.Int.{ℤ, IsI32}
use provii_crypto.Prelude.Bytes.{
  IsByte, to_le_bytes, length-to_le_bytes, to_le_bytes_inj, to_le_bytes-IsByte,
}
use provii_crypto.Commons.{bias_for_circuit, unbias_from_circuit}
use provii_crypto.Commons.Bias.{bias-lt, bias-unbias}
use provii_crypto.PublicInputs.{
  Multipack, PublicValues, bits_le_from_bytes, packed, assemble_public_inputs_canonical,
}
use provii_crypto.PublicInputs.Bytes.{bits_le_from_bytes_faithful, length-bits_le_from_bytes}

abbrev pub IsBytes32 : List ℕ → Type 0
IsBytes32 b = (length b ≡ 32) × All IsByte b

-- An `i32` and three `[u8; 32]`.
abbrev pub IsTyped : PublicValues → Type 0
IsTyped p =
    IsI32 p.cutoff_days
    × IsBytes32 p.rp_hash
    × IsBytes32 p.issuer_vk_bytes
    × IsBytes32 p.cred_nullifier

flag_inj : (a b : Bool) → ◌≡◌ {A = ℕ} (if a then 1 else 0) (if b then 1 else 0) → a ≡ b
flag_inj a b h = ground arith

direction_inj :
    (a b : Bool) → to_le_bytes 4 (if a then 1 else 0) ≡ to_le_bytes 4 (if b then 1 else 0) → a ≡ b
direction_inj a b h = flag_inj a b (to_le_bytes_inj 4 _ _ (small a) (small b) h)
  where
    small : (a : Bool) → (if a then 1 else 0) < 256 ^ 4
    small a = ground arith

bias_inj : (a b : ℤ) → IsI32 a → IsI32 b → bias_for_circuit a ≡ bias_for_circuit b → a ≡ b
bias_inj a b ha hb e = sym (bias-unbias.0 a ha) ∙ ap unbias_from_circuit e ∙ bias-unbias.0 b hb

module _ (M : Multipack) where
  open M use {Scalar, compute_multipacking}

  abbrev pack : List ℕ → List Scalar
  pack bs = compute_multipacking (bits_le_from_bytes bs)

  length-pack : (bs : List ℕ) → length (pack bs) ≡ (8 * length bs + 253) / 254
  length-pack bs =
      omega
        (arith, M.length-compute_multipacking (bits_le_from_bytes bs), length-bits_le_from_bytes bs)

  pack_inj :
      (bs cs : List ℕ)
      → All IsByte bs
      → All IsByte cs
      → length bs ≡ length cs
      → pack bs ≡ pack cs
      → bs ≡ cs
  pack_inj bs cs hb hc l e = (bits_le_from_bytes_faithful bs cs hb hc).1 (
      M.compute_multipacking_inj (bits_le_from_bytes bs) (bits_le_from_bytes cs)
        (omega (arith, length-bits_le_from_bytes bs, length-bits_le_from_bytes cs)) e)

  abbrev direction_bytes : PublicValues → List ℕ
  direction_bytes p = to_le_bytes 4 (if p.direction then 1 else 0)

  abbrev cutoff_bytes : PublicValues → List ℕ
  cutoff_bytes p = to_le_bytes 4 (bias_for_circuit p.cutoff_days)

  length-packed : (p : PublicValues) → IsTyped p → length (packed M p) ≡ 8
  length-packed p t =
      rw (length-append, length-append, length-append, length-append)
        (omega (
          arith,
          length-pack (direction_bytes p),
          length-pack (cutoff_bytes p),
          length-pack p.rp_hash,
          length-pack p.issuer_vk_bytes,
          length-pack p.cred_nullifier,
          length-to_le_bytes 4 (if p.direction then 1 else 0),
          length-to_le_bytes 4 (bias_for_circuit p.cutoff_days),
        ))

  pub assemble_ok :
      (p : PublicValues) → IsTyped p → assemble_public_inputs_canonical M p ≡ ok (packed M p)
  unfolding assemble_public_inputs_canonical
  assemble_ok p t = ground (arith, length-packed p t)

  -- On typed values the assembly never reports a wrong count: it returns eight scalars.
  pub assemble_public_inputs_total :
      (p : PublicValues)
      → IsTyped p
      → (out : List Scalar) × (assemble_public_inputs_canonical M p ≡ ok out) × (length out ≡ 8)
  assemble_public_inputs_total p t = (packed M p, assemble_ok p t, length-packed p t)

  packs_inj :
      (bs cs : List ℕ) (us vs : List Scalar)
      → All IsByte bs
      → All IsByte cs
      → length bs ≡ length cs
      → pack bs ++ us ≡ pack cs ++ vs
      → (bs ≡ cs) × (us ≡ vs)
  packs_inj bs cs us vs hb hc l e =
      let (p, q) =
        append_inj (pack bs) (pack cs) us vs
          (length-pack bs ∙ ap (λ n. (8 * n + 253) / 254) l ∙ sym (length-pack cs)) e in
      (pack_inj bs cs hb hc l p, q)

  packed_inj : (p q : PublicValues) → IsTyped p → IsTyped q → packed M p ≡ packed M q → p ≡ q
  packed_inj p q (cp, rp, ip, np) (cq, rq, iq, nq) e =
      let len = λ (v w : ℕ). length-to_le_bytes 4 v ∙ sym (length-to_le_bytes 4 w) in
      let (d, e1) =
        packs_inj (direction_bytes p) (direction_bytes q) _ _ (to_le_bytes-IsByte 4 _)
          (to_le_bytes-IsByte 4 _) (len _ _) e in
      let (c, e2) =
        packs_inj (cutoff_bytes p) (cutoff_bytes q) _ _ (to_le_bytes-IsByte 4 _)
          (to_le_bytes-IsByte 4 _) (len _ _) e1 in
      let (r, e3) = packs_inj p.rp_hash q.rp_hash _ _ rp.1 rq.1 (rp.0 ∙ sym rq.0) e2 in
      let (i, e4) =
        packs_inj p.issuer_vk_bytes q.issuer_vk_bytes _ _ ip.1 iq.1 (ip.0 ∙ sym iq.0) e3 in
      let n = pack_inj p.cred_nullifier q.cred_nullifier np.1 nq.1 (np.0 ∙ sym nq.0) e4 in
      let dir = direction_inj p.direction q.direction d in
      let cut =
        bias_inj p.cutoff_days q.cutoff_days cp cq
          (to_le_bytes_inj 4 _ _ (bias-lt p.cutoff_days cp) (bias-lt q.cutoff_days cq) c) in
      λ j. record {
        direction = dir j;
        cutoff_days = cut j;
        rp_hash = r j;
        issuer_vk_bytes = i j;
        cred_nullifier = n j;
      }

  -- The scalars determine what is proved: typed values that assemble to the same public inputs are
  -- the same direction, cutoff, relying-party hash, issuer key and nullifier.
  pub assemble_public_inputs_inj :
      (p q : PublicValues)
      → IsTyped p
      → IsTyped q
      → assemble_public_inputs_canonical M p ≡ assemble_public_inputs_canonical M q
      → p ≡ q
  assemble_public_inputs_inj p q tp tq e =
      packed_inj p q tp tq (ok-injective (sym (assemble_ok p tp) ∙ e ∙ assemble_ok q tq))
