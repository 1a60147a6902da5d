-- ===== src/Circuit/Bits.antt =====
-- crypto-circuit-age/src/gadgets/bits.rs: allocation of bits, the multiplexer, equality and the
-- comparison of bit vectors, lowest bit first. Namespaces only name constraints and are left out.
pub mod Equal
pub mod Swap
pub mod Compare
pub mod Complete
mod Tests
use provii_crypto.Prelude.{
  ℕ, ◌+◌, ◌-◌, ◌*◌, ◌%◌, Bool, true, false, not, ◌&&◌, ◌||◌, Option, some, none,
}
use provii_crypto.Prelude.{List, [], ◌∷◌, ◌==◌, ltb, if◌then◌else◌, length}
use provii_crypto.Circuit.Backend.{
  Bellman, Boolean, Synth, Lc, constant, not_wire, zero_lc, add_wire, sub_wire, add_one, return,
  fail, unsatisfiable, ◌>>=◌, ◌>>◌,
}
use provii_crypto.Prelude.Bytes.{to_ℕ}

-- `match (x, y, z) { (Some(u), Some(v), Some(w)) => Some(f), _ => None }`
abbrev pub map₃ :
    (Bool → Bool → Bool → Bool) → Option Bool → Option Bool → Option Bool → Option Bool
map₃ f (some u) (some v) (some w) = some (f u v w)
map₃ f (some u) (some v) none = none
map₃ f (some u) none z = none
map₃ f none y z = none

abbrev pub select : Bool → Bool → Bool → Bool
select d u v = if d then u else v

abbrev pub next_borrow_bit : Bool → Bool → Bool → Bool
next_borrow_bit a b borrow = (b && not a) || ((borrow && not a) || (b && borrow))

-- `((raw + 2 * next) % 2) == 1` on `i32`, where the remainder of a negative number is not positive.
abbrev pub diff_bit : Bool → Bool → Bool → Bool
diff_bit a b borrow =
    let up = to_ℕ a + 2 * to_ℕ (next_borrow_bit a b borrow) in
    let down = to_ℕ b + to_ℕ borrow in if ltb up down then false else (up - down) % 2 == 1

-- `if !test { return Err(Unsatisfiable) }`
abbrev pub require : {S : Type 0} → Bool → Synth S (Unit {0})
require true = return tt
require false = fail unsatisfiable

module _ (B : Bellman) where
  open B use {System, alloc, and_wires, enforce}

  abbrev pub enforce_that : Lc → Lc → Lc → Synth System (Unit {0})
  enforce_that a b c s = return tt (enforce a b c s)

  -- One round of `conditional_swap`.
  unfoldable pub swap_bit : Boolean → Boolean → Boolean → Synth System (Boolean × Boolean)
  swap_bit dir a b = do
    left ← alloc (map₃ select dir.get_value a.get_value b.get_value)
    enforce_that (add_wire zero_lc dir 1) (sub_wire (add_wire zero_lc a 1) b 1)
        (sub_wire (add_wire zero_lc left 1) b 1)
    right ← alloc (map₃ (λ d u v. select d v u) dir.get_value a.get_value b.get_value)
    enforce_that (add_wire zero_lc dir 1) (sub_wire (add_wire zero_lc b 1) a 1)
        (sub_wire (add_wire zero_lc right 1) a 1)
    return (left, right)

  unfoldable pub swap_bits :
      Boolean → List Boolean → List Boolean → Synth System (List Boolean × List Boolean)
  swap_bits dir (a ∷ as') (b ∷ bs) = do
    (left, right) ← swap_bit dir a b
    (lefts, rights) ← swap_bits dir as' bs
    return (left ∷ lefts, right ∷ rights)
  swap_bits dir as' bs = return ([], [])

  unfoldable pub conditional_swap :
      Boolean → List Boolean → List Boolean → Synth System (List Boolean × List Boolean)
  conditional_swap dir a b = do require (length a == length b); swap_bits dir a b

  unfoldable pub equal_bits : List Boolean → List Boolean → Synth System (Unit {0})
  equal_bits (a ∷ as') (b ∷ bs) = do
    enforce_that (add_wire zero_lc a 1) (add_one zero_lc) (add_wire zero_lc b 1)
    equal_bits as' bs
  equal_bits as' bs = return tt

  unfoldable pub enforce_bits_equal : List Boolean → List Boolean → Synth System (Unit {0})
  enforce_bits_equal a b = do require (length a == length b); equal_bits a b

  unfoldable pub boolean_or : Boolean → Boolean → Synth System Boolean
  boolean_or a b = do
    not_a_and_not_b ← and_wires (not_wire a) (not_wire b)
    return (not_wire not_a_and_not_b)

  -- The last round of `enforce_ge`: the final borrow is 0.
  unfoldable pub last_borrow : Boolean → Boolean → Boolean → Synth System (Unit {0})
  last_borrow a b borrow = do
    not_a_and_b ← and_wires (not_wire a) b
    not_a_and_borrow ← and_wires (not_wire a) borrow
    b_and_borrow ← and_wires b borrow
    term1 ← boolean_or not_a_and_b not_a_and_borrow
    final_borrow ← boolean_or term1 b_and_borrow
    enforce_that (add_wire zero_lc final_borrow 1) (add_one zero_lc) zero_lc

  -- Any other round: the next borrow.
  unfoldable pub step_borrow : Boolean → Boolean → Boolean → Synth System Boolean
  step_borrow a b borrow = do
    next_borrow ← alloc (map₃ next_borrow_bit a.get_value b.get_value borrow.get_value)
    diff ← alloc (map₃ diff_bit a.get_value b.get_value borrow.get_value)
    enforce_that (sub_wire (sub_wire (sub_wire (add_wire zero_lc a 1) b 1) borrow 1) diff 1)
        (add_one zero_lc) (sub_wire zero_lc next_borrow 2)
    return next_borrow

  -- The loop of `enforce_ge`; the lists are equally long, so an index is in both or in neither.
  unfoldable pub ge_rounds : List Boolean → List Boolean → Boolean → Synth System (Unit {0})
  ge_rounds (a ∷ []) (b ∷ bs) borrow = last_borrow a b borrow
  ge_rounds (a ∷ a' ∷ as') (b ∷ bs) borrow = do
    next_borrow ← step_borrow a b borrow
    ge_rounds (a' ∷ as') bs next_borrow
  ge_rounds as' bs borrow = return tt

  unfoldable pub enforce_ge : List Boolean → List Boolean → Synth System (Unit {0})
  enforce_ge a b = do require (length a == length b); ge_rounds a b (constant false)
