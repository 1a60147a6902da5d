-- ===== src/Prover/Runtime.antt =====
-- crypto-prover/src/lib.rs: `RuntimeConfig` and its initialization, once for the process. The
-- platform's `cfg!` flags and its parallelism are arguments.
use provii_crypto.Prelude.{
  ℕ, ◌≤◌, ◌≡◌, refl, arith, min, Bool, true, false, Option, some, none, if◌then◌else◌,
}
use mathlib.Core.Option

-- `DebugLevel`; `silent` is its `None`.
pub data DebugLevel : Type 0 where
  silent basic verbose extreme : DebugLevel

pub record RuntimeConfig : Type 0 where
  pub is_mobile : Bool
  pub max_threads : ℕ
  pub debug_level : DebugLevel

pub record Platform : Type 0 where
  pub is_mobile : Bool
  pub is_test : Bool
  pub available_parallelism : Option ℕ

-- `INIT` and `RUNTIME_CONFIG`; there is no configuration when the lock is poisoned.
pub record Runtime : Type 0 where
  pub initialized : Bool
  pub config : Option RuntimeConfig

unfoldable pub choose_threads : Platform → ℕ
choose_threads p =
    if p.is_test
    then 1
    else if p.is_mobile
    then Option.get_or p.available_parallelism 2
    else Option.get_or (Option.map (λ n. min n 4) p.available_parallelism) 2

-- `call_once`.
unfoldable pub init_prover_runtime : Platform → Runtime → Runtime
init_prover_runtime p r = if r.initialized then r else record {
  initialized = true;
  config =
      Option.map
        (λ (c : RuntimeConfig). record c {
          is_mobile = p.is_mobile;
          max_threads = choose_threads p;
        })
        r.config;
}

-- `available_parallelism` is a non-zero number, where there is one.
abbrev pub IsPlatform : Platform → Type 0
IsPlatform p = (n : ℕ) → p.available_parallelism ≡ some n → 1 ≤ n

-- What the initialization sets: a thread at least, at most four off mobile platforms and in tests
-- just one, and the debug level as it was.
abbrev pub IsConfigured : Platform → RuntimeConfig → RuntimeConfig → Type 0
IsConfigured p c d =
    (1 ≤ d.max_threads)
    × (p.is_mobile ≡ false → d.max_threads ≤ 4)
    × (p.is_test ≡ true → d.max_threads ≡ 1)
    × (d.is_mobile ≡ p.is_mobile)
    × (d.debug_level ≡ c.debug_level)

threads_bounds :
    (test mobile : Bool) (o : Option ℕ) (n : ℕ)
    → ((n : ℕ) → o ≡ some n → 1 ≤ n)
    → n ≡ (
        if test
        then 1
        else if mobile
        then Option.get_or o 2
        else Option.get_or (Option.map (λ n. min n 4) o) 2)
    → (1 ≤ n) × (mobile ≡ false → n ≤ 4) × (test ≡ true → n ≡ 1)
threads_bounds test mobile none n h e = ground arith
threads_bounds test mobile (some k) n h e = let k1 : 1 ≤ k = h k refl in ground arith

-- Starting from a configuration that no initialization has touched, the first call configures the
-- threads within their bounds and keeps the debug level, and every further call, on whatever
-- platform, changes nothing.
pub init_prover_runtime_once :
    (p q : Platform) (c : RuntimeConfig)
    → IsPlatform p
    → let first = init_prover_runtime p (record { initialized = false; config = some c }) in
      ((d : RuntimeConfig) × (first.config ≡ some d) × IsConfigured p c d)
      × (init_prover_runtime q first ≡ first)
unfolding init_prover_runtime choose_threads
init_prover_runtime_once p q c h =
    let (low, high, one) =
      threads_bounds p.is_test p.is_mobile p.available_parallelism (choose_threads p) h refl in
    let set = record c { is_mobile = p.is_mobile; max_threads = choose_threads p } in
    ((set, refl, (low, high, one, refl, refl)), refl)
