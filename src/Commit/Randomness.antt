-- ===== src/Commit/Randomness.antt =====
-- The randomness: the validator's bytes are the random source's, and when it accepts.
use provii_crypto.Prelude.{
  ℕ, zero, suc, ◌+◌, ◌*◌, ◌/◌, ◌%◌, ◌^◌, ◌≤◌, ◌<◌, ◌≡◌, ◌↔◌, refl, sym, ap, ap₂, ◌∙◌, arith,
}
use provii_crypto.Prelude.{
  Bool, true, false, List, [], ◌∷◌, ◌++◌, ok, err, length, length-append, length-take, All,
}
use provii_crypto.Prelude.{take, drop, take-append, drop-append, bit_or, if◌then◌else◌, ltb}
use native.Mathlib.Nat.{pow-suc, pow-le-pow_right}
use provii_crypto.Prelude.Bits.{bit_or_set_top}
use provii_crypto.Prelude.Bytes.{
  IsByte, value, byte_bits, bits_from, length-bits_from, value-bits_from,
}
use provii_crypto.Prelude.{Result}
use provii_crypto.Commons.{Error, invalid_input}
use provii_crypto.PublicInputs.{bits_le_from_bytes}
use provii_crypto.PublicInputs.Bytes.{length-bits_le_from_bytes}
use provii_crypto.Entropy.{has_enough_unique}
use provii_crypto.Entropy.Count.{unique_bytes, has_enough_unique_iff}
use provii_crypto.Commit.{
  chunk_byte, chunk_bytes, randomness_bytes, validate_commitment_randomness, draw_bits,
  generate_commitment_randomness,
}

pub value-lt : (bits : List Bool) → value bits < 2 ^ length bits
value-lt [] = omega arith
value-lt (b ∷ bits) = ground (arith, value-lt bits, pow-suc 2 (length bits))

distribute : (byte p v : ℕ) → byte + p + p * 2 * v ≡ byte + p * (1 + 2 * v)
distribute byte p v = grind arith

distribute' : (byte p v : ℕ) → byte + p * 2 * v ≡ byte + p * (0 + 2 * v)
distribute' byte p v = grind arith

chunk_byte_lem :
    (i : ℕ) (bits : List Bool) (byte : ℕ)
    → byte < 2 ^ i
    → chunk_byte i bits byte ≡ byte + 2 ^ i * value bits
chunk_byte_lem i [] byte h = omega arith
chunk_byte_lem i (true ∷ bits) byte h =
    let set = bit_or_set_top i byte h in
    let p = pow-suc 2 i in
    chunk_byte_lem (suc i) bits (bit_or byte (2 ^ i)) (omega arith)
    ∙ rw (set, p) (distribute byte (2 ^ i) (value bits))
chunk_byte_lem i (false ∷ bits) byte h =
    let p = pow-suc 2 i in
    chunk_byte_lem (suc i) bits byte (omega arith) ∙ rw p (distribute' byte (2 ^ i) (value bits))

chunk_byte-value : (bits : List Bool) → chunk_byte 0 bits 0 ≡ value bits
chunk_byte-value bits = chunk_byte_lem 0 bits 0 (omega arith) ∙ omega arith

chunk_bytes-IsByte : (fuel : ℕ) (bits : List Bool) → All IsByte (chunk_bytes fuel bits)
unfolding chunk_bytes
chunk_bytes-IsByte zero bits = tt
chunk_bytes-IsByte (suc fuel) [] = tt
chunk_bytes-IsByte (suc fuel) (b ∷ bits) = (
  chunk_IsByte (take 8 (b ∷ bits)) (omega (arith, length-take 8 (b ∷ bits))),
  chunk_bytes-IsByte fuel (drop 8 (b ∷ bits)),
)
  where
    chunk_IsByte : (c : List Bool) → length c ≤ 8 → IsByte (chunk_byte 0 c 0)
    chunk_IsByte c h = omega (
      arith,
      chunk_byte-value c,
      value-lt c,
      pow-le-pow_right {n = 2} (omega arith) {i = length c} {j = 8} h,
    )

pub randomness_bytes-IsByte : (bits : List Bool) → All IsByte (randomness_bytes bits)
randomness_bytes-IsByte bits = chunk_bytes-IsByte (length bits) bits

-- Whole bytes are read back.
chunks_of_bytes :
    (fuel : ℕ) (xs : List ℕ)
    → All IsByte xs
    → 8 * length xs ≤ fuel
    → chunk_bytes fuel (bits_le_from_bytes xs) ≡ xs
unfolding chunk_bytes bits_le_from_bytes
chunks_of_bytes zero [] hx h = refl
chunks_of_bytes (suc fuel) [] hx h = refl
chunks_of_bytes zero (x ∷ xs) hx h = absurd (omega arith)
chunks_of_bytes (suc fuel) (x ∷ xs) (hx, hxs) h =
    let bytes = byte_bits x in
    let first : chunk_byte 0 (take 8 (bytes ++ bits_le_from_bytes xs)) 0 ≡ x =
      ap (λ t. chunk_byte 0 t 0) (take-append 8 bytes _ (length-bits_from 8 0 x))
      ∙ chunk_byte-value bytes
      ∙ value-bits_from 8 x hx in
    let rest : drop 8 (bytes ++ bits_le_from_bytes xs) ≡ bits_le_from_bytes xs =
      drop-append 8 bytes _ (length-bits_from 8 0 x) in
    chunked fuel (bytes ++ bits_le_from_bytes xs)
      (omega (arith, length-append bytes (bits_le_from_bytes xs), length-bits_from 8 0 x))
    ∙ ap₂ ◌∷◌ first (ap (chunk_bytes fuel) rest ∙ chunks_of_bytes fuel xs hxs (omega arith))
  where
    chunked :
        (fuel : ℕ) (bits : List Bool)
        → 1 ≤ length bits
        → chunk_bytes (suc fuel) bits
          ≡ chunk_byte 0 (take 8 bits) 0 ∷ chunk_bytes fuel (drop 8 bits)
    chunked fuel [] h = absurd (omega arith)
    chunked fuel (b ∷ bits) h = refl

pub randomness_bytes-bits_le :
    (xs : List ℕ) → All IsByte xs → randomness_bytes (bits_le_from_bytes xs) ≡ xs
randomness_bytes-bits_le xs hx =
    chunks_of_bytes (length (bits_le_from_bytes xs)) xs hx
      (omega (arith, length-bits_le_from_bytes xs))

-- The validator accepts exactly 32 bits or more whose chunks of eight have at least eight values.
pub validate_iff :
    (r_bits : List Bool)
    → ((validate_commitment_randomness r_bits ≡ ok tt)
        ↔ ((32 ≤ length r_bits) × (8 ≤ unique_bytes (randomness_bytes r_bits))))
      × (¬ ((32 ≤ length r_bits) × (8 ≤ unique_bytes (randomness_bytes r_bits)))
          → validate_commitment_randomness r_bits ≡ err invalid_input)
unfolding validate_commitment_randomness
validate_iff r_bits =
    let entropy =
      has_enough_unique_iff (randomness_bytes r_bits) (randomness_bytes-IsByte r_bits) in
    decide (has_enough_unique (randomness_bytes r_bits)) (length r_bits)
      (unique_bytes (randomness_bytes r_bits)) entropy
  where
    decide :
        (e : Bool) (l u : ℕ)
        → (e ≡ true) ↔ (8 ≤ u)
        → let r : Result Error (Unit {0}) =
            if ltb l 32 then err invalid_input else (if e then ok tt else err invalid_input) in
          ((r ≡ ok tt) ↔ ((32 ≤ l) × (8 ≤ u))) × (¬ ((32 ≤ l) × (8 ≤ u)) → r ≡ err invalid_input)
    decide true l u h = ground arith
    decide false l u h = ground arith

draw_next :
    (b : ℕ) (buf : List ℕ) (left i : ℕ) → draw_bits (b ∷ buf) left (8 + i) ≡ draw_bits buf left i
unfolding draw_bits
draw_next b buf zero i = refl
draw_next b buf (suc left) i =
    let q : (8 + i) / 8 ≡ suc (i / 8) = omega arith in
    let r : (8 + i) % 8 ≡ i % 8 = omega arith in
    let n : suc (8 + i) ≡ 8 + suc i = omega arith in
    ap₂ ◌∷◌ (rw (q, r) refl) (ap (draw_bits (b ∷ buf) left) n ∙ draw_next b buf left (suc i))

draw_byte :
    (b : ℕ) (buf : List ℕ) (left : ℕ)
    → draw_bits (b ∷ buf) (8 + left) 0 ≡ byte_bits b ++ draw_bits (b ∷ buf) left 8
unfolding draw_bits bits_from
draw_byte b buf left = rw (eight left) refl
  where
    eight : (n : ℕ) → 8 + n ≡ suc (suc (suc (suc (suc (suc (suc (suc n)))))))
    eight n = omega arith

draw_all : (buf : List ℕ) → draw_bits buf (8 * length buf) 0 ≡ bits_le_from_bytes buf
unfolding bits_le_from_bytes
draw_all [] = unfold draw_bits in refl
draw_all (b ∷ buf) =
    let n : 8 * length (b ∷ buf) ≡ 8 + 8 * length buf = omega arith in
    ap (λ k. draw_bits (b ∷ buf) k 0) n
    ∙ draw_byte b buf (8 * length buf)
    ∙ ap (λ t. byte_bits b ++ t) (draw_next b buf (8 * length buf) 0 ∙ draw_all buf)

length-draw_bits : (buf : List ℕ) (left i : ℕ) → length (draw_bits buf left i) ≡ left
unfolding draw_bits
length-draw_bits buf zero i = refl
length-draw_bits buf (suc left) i = ap suc (length-draw_bits buf left (suc i))

-- The generator returns as many bits as it is asked for. For a whole number of bytes they are the
-- bits of the bytes that the random source filled in, lowest first, and the validator's bytes are
-- again those bytes: no entropy is lost between the two.
pub generate_commitment_randomness_lem :
    (fill_bytes : ℕ → List ℕ) (n num_bits : ℕ)
    → length (fill_bytes n) ≡ n
    → All IsByte (fill_bytes n)
    → (length (generate_commitment_randomness fill_bytes num_bits) ≡ num_bits)
      × (generate_commitment_randomness fill_bytes (8 * n) ≡ bits_le_from_bytes (fill_bytes n))
      × (randomness_bytes (generate_commitment_randomness fill_bytes (8 * n)) ≡ fill_bytes n)
unfolding generate_commitment_randomness
generate_commitment_randomness_lem fill_bytes n num_bits l h =
    let m : (8 * n + 7) / 8 ≡ n = omega arith in
    let drawn : generate_commitment_randomness fill_bytes (8 * n)
        ≡ bits_le_from_bytes (fill_bytes n) =
      ap (λ k. draw_bits (fill_bytes k) (8 * n) 0) m
      ∙ ap (λ k. draw_bits (fill_bytes n) (8 * k) 0) (sym l)
      ∙ draw_all (fill_bytes n) in
    (
      length-draw_bits (fill_bytes ((num_bits + 7) / 8)) num_bits 0,
      drawn,
      ap randomness_bytes drawn ∙ randomness_bytes-bits_le (fill_bytes n) h,
    )
