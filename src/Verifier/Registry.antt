-- ===== src/Verifier/Registry.antt =====
-- The registry over time: set at most once, by an initialisation whose keys all load, and then never
-- changed; of several entries with one id the last counts.
use provii_crypto.Prelude.{ℕ, ◌≡◌, refl, sym, ap, ◌∙◌, inl, inr, arith}
use provii_crypto.Prelude.{
  List, [], ◌∷◌, Option, some, none, Result, ok, err, ◌==◌, if◌then◌else◌, on_bind, ok-injective,
  Bool-cases,
}
use provii_crypto.Commons.{Error}
use provii_crypto.PublicInputs.{Multipack, PublicValues}
use provii_crypto.Verifier.{
  Groth16, get, insert, Keys, Cell, load_vk, set_registry, then_set, init_with_vk_bytes,
  load_entries, init_with_vk_registry, registered,
}

module _ {V : Type 0} where
  pub get-insert :
      (k j : ℕ) (v : V) (m : List (ℕ × V))
      → get (insert k v m) j ≡ (if k == j then some v else get m j)
  unfolding get insert
  get-insert k j v [] = refl
  get-insert k j v ((i, w) ∷ m) = ground (arith, get-insert k j v m)

module _ (M : Multipack) (G : Groth16 M) where
  open G use {PreparedVerifyingKey}

  -- What a caller can do with the registry.
  pub data Call : Type 0 where
    init_bytes : List ℕ → Call
    init_registry : List (ℕ × List ℕ) → Call
    verify : List ℕ → PublicValues → ℕ → Call

  pub step : Call → Cell M G → Cell M G
  step (init_bytes bytes) cell = (init_with_vk_bytes M G bytes cell).1
  step (init_registry entries) cell = (init_with_vk_registry M G entries cell).1
  step (verify proof p vk_id) cell = cell

  pub run : List Call → Cell M G → Cell M G
  run [] cell = cell
  run (c ∷ calls) cell = run calls (step c cell)

  then_set_kept :
      (r : Result Error (Keys M G)) (m : Keys M G) → (then_set M G r (some m)).1 ≡ some m
  unfolding set_registry
  then_set_kept (ok n) m = refl
  then_set_kept (err e) m = refl

  step_kept : (c : Call) (m : Keys M G) → step c (some m) ≡ some m
  unfolding step init_with_vk_bytes init_with_vk_registry
  step_kept (init_bytes bytes) m = then_set_kept _ m
  step_kept (init_registry []) m = refl
  step_kept (init_registry (e ∷ entries)) m = then_set_kept _ m
  step_kept (verify proof p vk_id) m = refl

  -- A registry that is set stays as it is through any sequence of calls.
  pub run_kept : (calls : List Call) (m : Keys M G) → run calls (some m) ≡ some m
  unfolding run
  run_kept [] m = refl
  run_kept (c ∷ calls) m = ap (run calls) (step_kept c m) ∙ run_kept calls m

  then_set-ok :
      (r : Result Error (Keys M G)) (cell : Cell M G)
      → (then_set M G r cell).0 ≡ ok tt
      → (cell ≡ none) × (m : Keys M G) × (r ≡ ok m) × ((then_set M G r cell).1 ≡ some m)
  unfolding set_registry
  then_set-ok (ok m) none h = (refl, m, refl, refl)
  then_set-ok (ok m) (some old) h = cc
  then_set-ok (err e) cell h = cc

  -- The bytes of the last entry with an id.
  abbrev pub or_latest : Option (List ℕ) → Option (List ℕ) → Option (List ℕ)
  or_latest none earlier = earlier
  or_latest (some b) earlier = some b

  abbrev pub latest : ℕ → List (ℕ × List ℕ) → Option (List ℕ)
  latest k [] = none
  latest k ((j, b) ∷ entries) = or_latest (latest k entries) (if j == k then some b else none)

  -- The key that those bytes load to, or else what was there before.
  abbrev pub loaded_key : Result Error PreparedVerifyingKey → Option PreparedVerifyingKey
  loaded_key (ok pvk) = some pvk
  loaded_key (err e) = none

  abbrev pub loaded : Option (List ℕ) → Option PreparedVerifyingKey → Option PreparedVerifyingKey
  loaded none before = before
  loaded (some b) before = loaded_key (load_vk M G b)

  loaded-latest :
      (k j : ℕ) (b : List ℕ) (pvk : PreparedVerifyingKey) (later : Option (List ℕ))
      (before : Option PreparedVerifyingKey)
      → load_vk M G b ≡ ok pvk
      → loaded later (if j == k then some pvk else before)
        ≡ loaded (or_latest later (if j == k then some b else none)) before
  loaded-latest k j b pvk (some b') before h = refl
  loaded-latest k j b pvk none before h = elim (Bool-cases (j == k)) [
    | inl e ↦ rw (e, h) refl
    | inr e ↦ rw e refl
  ]

  get-load_entries :
      (entries : List (ℕ × List ℕ)) (m out : Keys M G)
      → load_entries M G entries m ≡ ok out
      → (k : ℕ) → get out k ≡ loaded (latest k entries) (get m k)
  unfolding load_entries
  get-load_entries [] m out h k = ap (λ t. get t k) (sym (ok-injective h))
  get-load_entries ((j, b) ∷ entries) m out h k = on_bind (load_vk M G b) _ h λ pvk hb h1.
      get-load_entries entries (insert j pvk m) out h1 k
      ∙ ap (loaded (latest k entries)) (get-insert j k pvk m)
      ∙ loaded-latest k j b pvk (latest k entries) (get m k) hb

  load_registry :
      (entries : List (ℕ × List ℕ)) (cell : Cell M G)
      → (init_with_vk_registry M G entries cell).0 ≡ ok tt
      → (cell ≡ none)
        × (m : Keys M G) × (load_entries M G entries [] ≡ ok m)
        × ((init_with_vk_registry M G entries cell).1 ≡ some m)
  unfolding init_with_vk_registry
  load_registry [] cell h = cc
  load_registry (e ∷ entries) cell h = then_set-ok (load_entries M G (e ∷ entries) []) cell h

  get-nil : (k : ℕ) → ◌≡◌ {A = Option PreparedVerifyingKey} (get [] k) none
  unfolding get
  get-nil k = refl

  -- An initialisation from entries that succeeds found the registry unset. Afterwards, through any
  -- further sequence of calls, each id has the key that the last entry with that id loads to, and
  -- an id without an entry has none.
  pub init_with_vk_registry_once :
      (entries : List (ℕ × List ℕ)) (cell : Cell M G) (calls : List Call)
      → (init_with_vk_registry M G entries cell).0 ≡ ok tt
      → (cell ≡ none)
        × ((k : ℕ)
            → registered M G (run calls (init_with_vk_registry M G entries cell).1) k
              ≡ loaded (latest k entries) none)
  init_with_vk_registry_once entries cell calls h =
      let (unset, m, hm, hs) = load_registry entries cell h in
      (
        unset,
        λ k.
            ap (λ c. registered M G (run calls c) k) hs
            ∙ ap (λ c. registered M G c k) (run_kept calls m)
            ∙ get-load_entries entries [] m hm k
            ∙ ap (loaded (latest k entries)) (get-nil k),
      )

  -- A second initialisation never takes effect: on a set registry both initialisers fail and leave
  -- it as it was.
  pub init_again_fails :
      (entries : List (ℕ × List ℕ)) (bytes : List ℕ) (m : Keys M G)
      → ¬ ((init_with_vk_registry M G entries (some m)).0 ≡ ok tt)
        × ((init_with_vk_registry M G entries (some m)).1 ≡ some m)
        × ¬ ((init_with_vk_bytes M G bytes (some m)).0 ≡ ok tt)
        × ((init_with_vk_bytes M G bytes (some m)).1 ≡ some m)
  unfolding init_with_vk_bytes init_with_vk_registry step
  init_again_fails entries bytes m = (
    λ h. some-ne-none (load_registry entries (some m) h).0,
    kept (init_registry entries),
    λ h. some-ne-none (then_set-ok _ (some m) h).0,
    kept (init_bytes bytes),
  )
    where
      some-ne-none : {x : Keys M G} → ¬ (some x ≡ none)
      some-ne-none h = cc

      kept : (c : Call) → step c (some m) ≡ some m
      kept c = step_kept c m
