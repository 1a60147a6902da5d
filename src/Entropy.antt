-- ===== src/Entropy.antt =====
-- The count of distinct byte values that crypto-protocol/src/nonce.rs and
-- crypto-commit/src/lib.rs both write out: a table `seen` of 256 flags and a `u16` counter.
pub mod Count
mod Tests
use provii_crypto.Prelude.{
  ℕ, suc, ◌+◌, ◌-◌, Bool, true, false, List, [], ◌∷◌, ◌==◌, if◌then◌else◌, leb, min,
}

abbrev pub Seen : Type 0
Seen = ℕ → Bool

-- `seen[b as usize] = true`
abbrev pub mark : ℕ → Seen → Seen
mark b seen v = if v == b then true else seen v

-- `uniq.saturating_add(1)` on a `u16`.
abbrev pub saturating_suc : ℕ → ℕ
saturating_suc uniq = min (suc uniq) 65535

-- The loop over the bytes.
unfoldable pub count_unique : List ℕ → Seen → ℕ → ℕ
count_unique [] seen uniq = uniq
count_unique (b ∷ bytes) seen uniq = elim (seen b) [
  | true ↦ count_unique bytes seen uniq
  | false ↦ count_unique bytes (mark b seen) (saturating_suc uniq)
]

unfoldable pub has_enough_unique : List ℕ → Bool
has_enough_unique bytes = leb 8 (count_unique bytes (λ _. false) 0)
