-- ===== src/Signature/Example.antt =====
-- A group that satisfies the documented laws: the naturals with 1 as generator.
use provii_crypto.Prelude.{
  ℕ, suc, ◌+◌, ◌*◌, ◌≡◌, refl, sym, ap, ◌∙◌, arith, ◌==◌, if◌then◌else◌, Bool-cases, inl, inr,
}
use provii_crypto.Prelude.{List, [], ◌∷◌, ◌++◌, Option, some, none, length, replicate, take}
use provii_crypto.Prelude.Bytes.{bytes_eq, bytes_eq_sound, bytes_eq_refl}
use provii_crypto.Signature.Primitives.{Jubjub, spending_key_gen_bytes}

abbrev pub head_byte : List ℕ → ℕ
head_byte [] = 0
head_byte (b ∷ bytes) = b

abbrev pub encode_scalar : ℕ → List ℕ
encode_scalar a = a ∷ replicate 31 0

abbrev pub encode_point : ℕ → List ℕ
encode_point p = if p == 1 then spending_key_gen_bytes else encode_scalar p

abbrev pub guess_point : List ℕ → ℕ
guess_point b = if bytes_eq b spending_key_gen_bytes then 1 else head_byte b

-- A string that is the encoding of the guessed value.
abbrev pub checked : (ℕ → List ℕ) → (List ℕ → ℕ) → List ℕ → Option ℕ
checked encode guess b = if bytes_eq (encode (guess b)) b then some (guess b) else none

pub checked_decodes :
    (encode : ℕ → List ℕ) (guess : List ℕ → ℕ) (a : ℕ)
    → guess (encode a) ≡ a
    → checked encode guess (encode a) ≡ some a
checked_decodes encode guess a e = rw (e, bytes_eq_refl (encode a)) refl

pub checked_canonical :
    (encode : ℕ → List ℕ) (guess : List ℕ → ℕ) (b : List ℕ) {a : ℕ}
    → checked encode guess b ≡ some a
    → encode a ≡ b
checked_canonical encode guess b {a} h = elim (Bool-cases (bytes_eq (encode (guess b)) b)) [
  | inl e ↦ ap encode (sym (some_inj (rw e at h))) ∙ bytes_eq_sound _ _ e
  | inr e ↦ absurd (none-ne-some (rw e at h))
]
  where
    some_inj : {x y : ℕ} → some x ≡ some y → x ≡ y
    some_inj h = cc

    none-ne-some : {x : ℕ} → ◌≡◌ {A = Option ℕ} none (some x) → ⊥
    none-ne-some h = cc

pub guess-encode_point : (p : ℕ) → guess_point (encode_point p) ≡ p
guess-encode_point p = ground arith

pub length-encode_point : (p : ℕ) → length (encode_point p) ≡ 32
length-encode_point p = ground arith

abbrev pub first_or_one : List ℕ → ℕ
first_or_one [] = 1
first_or_one (b ∷ bytes) = suc b

pub distribute : (p a b : ℕ) → p * (a + b) ≡ p * a + p * b
distribute p a b = grind arith

pub swap_factors : (p a b : ℕ) → p * (a * b) ≡ p * b * a
swap_factors p a b = grind arith

pub one_times : (a : ℕ) → (1 * a == 0) ≡ (a == 0)
one_times a = ap (λ t. t == 0) (omega arith)

abbrev pub group : Jubjub
group = record {
  Scalar = ℕ;
  Point = ℕ;
  scalar_add = λ a b. a + b;
  scalar_mul = λ a b. a * b;
  is_zero = λ a. a == 0;
  point_add = λ p q. p + q;
  scale = λ p a. p * a;
  is_identity = λ p. p == 0;
  generator = 1;
  scalar_from_bytes = checked encode_scalar head_byte;
  scalar_to_bytes = encode_scalar;
  scalar_from_bytes_wide = first_or_one;
  point_from_bytes = checked encode_point guess_point;
  point_to_bytes = encode_point;
  blake2s256 = λ bytes. take 32 (bytes ++ replicate 32 0);
  blake2s_personal = λ tag bytes. take 32 (bytes ++ replicate 32 0);
  scale_add = distribute;
  scale_mul = swap_factors;
  scale_identity = one_times;
  generator_decodes = refl;
  length-scalar_to_bytes = λ a. refl;
  length-point_to_bytes = length-encode_point;
  scalar_decodes = λ a. checked_decodes encode_scalar head_byte a refl;
  scalar_canonical = checked_canonical encode_scalar head_byte;
  point_decodes = λ p. checked_decodes encode_point guess_point p (guess-encode_point p);
  point_canonical = checked_canonical encode_point guess_point;
}
