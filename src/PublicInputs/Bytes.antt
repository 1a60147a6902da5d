-- ===== src/PublicInputs/Bytes.antt =====
-- `bits_le_from_bytes`: its length, and that the bits determine the bytes.
use provii_crypto.Prelude.{ℕ, ◌*◌, ◌<◌, ◌≡◌, refl, ap, ap₂, sym, ◌∙◌, arith}
use provii_crypto.Prelude.{
  List, [], ◌∷◌, ◌++◌, length, length-append, append_inj, append_assoc, All,
}
use provii_crypto.Prelude.Bytes.{IsByte, byte_bits, length-bits_from, value-bits_from, value}
use provii_crypto.PublicInputs.{bits_le_from_bytes}

pub bits_le_from_bytes-append :
    (xs ys : List ℕ)
    → bits_le_from_bytes (xs ++ ys) ≡ bits_le_from_bytes xs ++ bits_le_from_bytes ys
unfolding bits_le_from_bytes
bits_le_from_bytes-append [] ys = refl
bits_le_from_bytes-append (x ∷ xs) ys =
    ap (λ t. byte_bits x ++ t) (bits_le_from_bytes-append xs ys)
    ∙ sym (append_assoc (byte_bits x) (bits_le_from_bytes xs) (bits_le_from_bytes ys))

pub length-bits_le_from_bytes : (xs : List ℕ) → length (bits_le_from_bytes xs) ≡ 8 * length xs
unfolding bits_le_from_bytes
length-bits_le_from_bytes [] = refl
length-bits_le_from_bytes (x ∷ xs) = omega (
  arith,
  length-append (byte_bits x) (bits_le_from_bytes xs),
  length-bits_from 8 0 x,
  length-bits_le_from_bytes xs,
)

pub byte_bits_inj : (x y : ℕ) → x < 256 → y < 256 → byte_bits x ≡ byte_bits y → x ≡ y
byte_bits_inj x y hx hy e =
    omega (arith, ap value e, value-bits_from 8 x hx, value-bits_from 8 y hy)

bits_le_inj :
    (xs ys : List ℕ)
    → All IsByte xs
    → All IsByte ys
    → bits_le_from_bytes xs ≡ bits_le_from_bytes ys
    → xs ≡ ys
unfolding bits_le_from_bytes
bits_le_inj [] [] hx hy e = refl
bits_le_inj (x ∷ xs) [] hx hy e =
    absurd (omega (arith, ap length e, length-bits_le_from_bytes (x ∷ xs)))
bits_le_inj [] (y ∷ ys) hx hy e =
    absurd (omega (arith, ap length e, length-bits_le_from_bytes (y ∷ ys)))
bits_le_inj (x ∷ xs) (y ∷ ys) (hx, hxs) (hy, hys) e =
    let (p, q) =
      append_inj (byte_bits x) (byte_bits y) _ _
        (length-bits_from 8 0 x ∙ sym (length-bits_from 8 0 y)) e in
    ap₂ ◌∷◌ (byte_bits_inj x y hx hy p) (bits_le_inj xs ys hxs hys q)

-- `bits_le_from_bytes` yields eight bits for each byte, and byte strings with the same bits are the
-- same.
pub bits_le_from_bytes_faithful :
    (xs ys : List ℕ)
    → All IsByte xs
    → All IsByte ys
    → (length (bits_le_from_bytes xs) ≡ 8 * length xs)
      × (bits_le_from_bytes xs ≡ bits_le_from_bytes ys → xs ≡ ys)
bits_le_from_bytes_faithful xs ys hx hy = (length-bits_le_from_bytes xs, bits_le_inj xs ys hx hy)
