-- ===== src/Signature/Encoding.antt =====
-- The byte form of a signature, and which byte strings are signatures.
use provii_crypto.Prelude.{ℕ, ◌≡◌, ap, ap₂, ◌∙◌, ◌↔◌, arith, true, false, not}
use provii_crypto.Prelude.{List, ◌++◌, length, length-drop, take, drop, ok}
use provii_crypto.Prelude.{
  take-append, drop-append, take_all, take-append-drop, on_ok_or, on_guard, ok-injective, not-true,
  err,
}
use mathlib.Core.Path.{subst}
use provii_crypto.Signature.Primitives.{Jubjub}
use provii_crypto.Signature.{
  Signature, signature_from_bytes, signature_to_bytes, invalid_signature_bytes,
}

halves : (bytes : List ℕ) → length bytes ≡ 64 → take 32 bytes ++ take 32 (drop 32 bytes) ≡ bytes
halves bytes l =
    ap (λ t. take 32 bytes ++ t) (take_all 32 (drop 32 bytes) (omega (arith, length-drop 32 bytes)))
    ∙ take-append-drop 32 bytes

module _ (J : Jubjub) where
  parts :
      (sig : Signature J)
      → (take 32 (signature_to_bytes J sig) ≡ J.point_to_bytes sig.r)
        × (take 32 (drop 32 (signature_to_bytes J sig)) ≡ J.scalar_to_bytes sig.s)
  unfolding signature_to_bytes
  parts sig =
      let lr = J.length-point_to_bytes sig.r in
      let ls = J.length-scalar_to_bytes sig.s in
      (
        take-append 32 (J.point_to_bytes sig.r) (J.scalar_to_bytes sig.s) lr,
        ap (take 32) (drop-append 32 (J.point_to_bytes sig.r) (J.scalar_to_bytes sig.s) lr)
            ∙ take_all 32 (J.scalar_to_bytes sig.s) ls,
      )

  pub signature_decodes :
      (sig : Signature J)
      → J.is_identity sig.r ≡ false
      → J.is_zero sig.s ≡ false
      → signature_from_bytes J (signature_to_bytes J sig) ≡ ok sig
  unfolding signature_from_bytes
  signature_decodes sig hr hs =
      let (pr, ps) = parts sig in rw (pr, ps, J.point_decodes sig.r, hr, J.scalar_decodes sig.s, hs)

  pub zero_signature_refused :
      (sig : Signature J)
      → J.is_identity sig.r ≡ false
      → J.is_zero sig.s ≡ true
      → signature_from_bytes J (signature_to_bytes J sig) ≡ err invalid_signature_bytes
  unfolding signature_from_bytes
  zero_signature_refused sig hr hs =
      let (pr, ps) = parts sig in rw (pr, ps, J.point_decodes sig.r, hr, J.scalar_decodes sig.s, hs)

  signature_canonical :
      (bytes : List ℕ) (sig : Signature J)
      → length bytes ≡ 64
      → signature_from_bytes J bytes ≡ ok sig
      → (signature_to_bytes J sig ≡ bytes)
        × (J.is_identity sig.r ≡ false)
        × (J.is_zero sig.s ≡ false)
  unfolding signature_from_bytes signature_to_bytes
  signature_canonical bytes sig l h =
      on_ok_or (J.point_from_bytes (take 32 bytes)) invalid_signature_bytes _ h λ r er h1.
        on_guard (not (J.is_identity r)) invalid_signature_bytes _ h1 λ nr h2.
          on_ok_or (J.scalar_from_bytes (take 32 (drop 32 bytes))) invalid_signature_bytes _ h2
            λ s es h3. on_guard (not (J.is_zero s)) invalid_signature_bytes _ h3 λ ns h4.
              let made : Signature J = record { r = r; s = s } in
              let eq : made ≡ sig = ok-injective h4 in
              rw (← eq) (
                ap₂ ◌++◌ (J.point_canonical _ er) (J.scalar_canonical _ es) ∙ halves bytes l,
                not-true nr,
                not-true ns,
              )

  -- A string of 64 bytes parses to a signature exactly when it is that signature's byte form, its R
  -- is not the identity and its s is not zero: each signature has one encoding.
  pub signature_from_bytes_iff :
      (bytes : List ℕ) (sig : Signature J)
      → length bytes ≡ 64
      → (signature_from_bytes J bytes ≡ ok sig) ↔ (
          (signature_to_bytes J sig ≡ bytes)
          × (J.is_identity sig.r ≡ false)
          × (J.is_zero sig.s ≡ false))
  signature_from_bytes_iff bytes sig l = (
    signature_canonical bytes sig l,
    λ h. subst (λ b. signature_from_bytes J b ≡ ok sig) h.0 (signature_decodes sig h.1 h.2),
  )
