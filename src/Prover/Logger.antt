-- ===== src/Prover/Logger.antt =====
-- crypto-prover/src/lib.rs: `RuntimeConfig::new`, the platform's name, and `DebugLogger` with its
-- levels. The instants of the clock are milliseconds; what goes to the terminal is left out.
mod Tests
use provii_crypto.Prelude.{
  ℕ, suc, ◌-◌, ◌<◌, ◌≤◌, ◌≡◌, ◌≢◌, refl, sym, ap, ◌∙◌, arith, Bool, true, false, List, [], ◌∷◌,
  ◌++◌, Option, some, none, if◌then◌else◌, ltb, length, replicate, Bool-cases, inl, inr, map,
  append_assoc, append-nil,
}
use provii_crypto.Prelude.Bytes.{codes, bytes_eq}
use provii_crypto.Commons.Civil.{decimal}
use provii_crypto.Prover.Runtime.{DebugLevel, silent, basic, verbose, extreme, RuntimeConfig}

-- The match on the environment's value, in lower case.
abbrev pub level_of : List ℕ → Option DebugLevel
level_of s =
    if bytes_eq s (codes "none")
    then some silent
    else if bytes_eq s (codes "basic")
    then some basic
    else if bytes_eq s (codes "verbose")
    then some verbose
    else if bytes_eq s (codes "extreme")
    then some extreme
    else none

abbrev pub level_or : Option DebugLevel → DebugLevel → DebugLevel
level_or none d = d
level_or (some l) d = l

abbrev pub then_level : Option (List ℕ) → Option DebugLevel
then_level none = none
then_level (some s) = level_of s

-- `RuntimeConfig::new`, from `cfg!(debug_assertions)` and the variable `PROVER_DEBUG_LEVEL`.
unfoldable pub new_config : Bool → Option (List ℕ) → RuntimeConfig
new_config debug_assertions variable = record {
  is_mobile = false;
  max_threads = 1;
  debug_level = if debug_assertions then level_or (then_level variable) basic else silent;
}

-- The targets in the order of their tests.
pub record Target : Type 0 where
  pub ios : Bool
  pub android : Bool
  pub wasm32 : Bool
  pub macos : Bool
  pub windows : Bool

unfoldable pub get_platform_string : Target → List ℕ
get_platform_string t =
    if t.ios
    then codes "ios"
    else if t.android
    then codes "android"
    else if t.wasm32
    then codes "wasm"
    else if t.macos
    then codes "macos"
    else if t.windows
    then codes "windows"
    else codes "linux"

pub record DebugLogger : Type 0 where
  pub logs : List (List ℕ)
  pub start_time : Option ℕ

abbrev pub new_logger : DebugLogger
new_logger = record { logs = []; start_time = none }

abbrev pub start_session : ℕ → DebugLogger → DebugLogger
start_session now logger = record { logs = []; start_time = some now }

-- `self.logs.join("\n")`
unfoldable pub join_lines : List (List ℕ) → List ℕ
join_lines [] = []
join_lines (line ∷ []) = line
join_lines (line ∷ next ∷ rest) = line ++ (b'\n' ∷ join_lines (next ∷ rest))

abbrev pub dump_all : DebugLogger → List ℕ
dump_all logger = join_lines logger.logs

-- `level as u8`
abbrev pub level_number : DebugLevel → ℕ
level_number silent = 0
level_number basic = 1
level_number verbose = 2
level_number extreme = 3

-- `format!("[{timestamp:>6}ms] {msg}")`, of a `u128`.
unfoldable pub log_entry : ℕ → List ℕ → List ℕ
log_entry timestamp msg =
    let digits = decimal 39 timestamp in
    b'[' ∷ (replicate (6 - length digits) b' ' ++ (digits ++ (codes "ms] " ++ msg)))

abbrev pub elapsed : Option ℕ → ℕ → ℕ
elapsed none now = 0
elapsed (some start) now = now - start

-- `log`, under the configuration that it reads.
unfoldable pub log : RuntimeConfig → DebugLevel → ℕ → List ℕ → DebugLogger → DebugLogger
log config level now msg logger =
    if ltb (level_number config.debug_level) (level_number level) then logger else record logger {
      logs = logger.logs ++ (log_entry (elapsed logger.start_time now) msg ∷ []);
    }

-- A call of `debug_log!`: its level, its instant and its message.
pub record Call : Type 0 where
  pub level : DebugLevel
  pub at : ℕ
  pub msg : List ℕ

-- The calls of a session, one after the other.
unfoldable pub log_all : RuntimeConfig → List Call → DebugLogger → DebugLogger
log_all config [] logger = logger
log_all config (call ∷ calls) logger =
    log_all config calls (log config call.level call.at call.msg logger)

-- The calls that a level lets through.
abbrev pub kept : DebugLevel → List Call → List Call
kept level [] = []
kept level (call ∷ calls) =
    let rest = kept level calls in
    if ltb (level_number level) (level_number call.level) then rest else call ∷ rest

abbrev entry_of : Option ℕ → Call → List ℕ
entry_of start call = log_entry (elapsed start call.at) call.msg

module _ (config : RuntimeConfig) (call : Call) (logger : DebugLogger) where
  -- The call's effect on the log.
  abbrev logged : DebugLogger
  logged = log config call.level call.at call.msg logger

  abbrev above : Bool
  above = ltb (level_number config.debug_level) (level_number call.level)

  abbrev appended : DebugLogger
  appended = record logger { logs = logger.logs ++ (entry_of logger.start_time call ∷ []) }

  logged-above : above ≡ true → logged ≡ logger
  unfolding log
  logged-above e = rw e refl

  logged-within : above ≡ false → logged ≡ appended
  unfolding log
  logged-within e = rw e refl

log_all_lem :
    (config : RuntimeConfig) (calls : List Call) (logger : DebugLogger)
    → (log_all config calls logger).logs
      ≡ logger.logs ++ map (entry_of logger.start_time) (kept config.debug_level calls)
unfolding log_all
log_all_lem config [] logger = sym (append-nil logger.logs)
log_all_lem config (call ∷ calls) logger = elim (Bool-cases (above config call logger)) [
  | inl e ↦
      ap (λ l. (log_all config calls l).logs) (logged-above config call logger e)
      ∙ log_all_lem config calls logger
      ∙ ap (λ b. logger.logs ++ map entry (if b then rest else call ∷ rest)) (sym e)
  | inr e ↦
      ap (λ l. (log_all config calls l).logs) (logged-within config call logger e)
      ∙ log_all_lem config calls (appended config call logger)
      ∙ append_assoc logger.logs (entry call ∷ []) (map entry rest)
      ∙ ap (λ b. logger.logs ++ map entry (if b then rest else call ∷ rest)) (sym e)
]
  where
    entry : Call → List ℕ
    entry = entry_of logger.start_time

    rest : List Call
    rest = kept config.debug_level calls

-- After a session's start the log holds the entries of exactly those calls whose level is within the
-- configured one, in their order and with the time since the start; nothing of an earlier session
-- stays.
pub log_all-start_session :
    (config : RuntimeConfig) (now : ℕ) (calls : List Call) (logger : DebugLogger)
    → (log_all config calls (start_session now logger)).logs
      ≡ map (λ (call : Call). log_entry (call.at - now) call.msg) (kept config.debug_level calls)
log_all-start_session config now calls logger = log_all_lem config calls (start_session now logger)

-- A message of a level above `None`.
abbrev pub AllLoud : List Call → Type 0
AllLoud [] = Unit {0}
AllLoud (call ∷ calls) = (call.level ≢ silent) × AllLoud calls

kept_silent : (calls : List Call) → AllLoud calls → kept silent calls ≡ []
kept_silent [] h = refl
kept_silent (call ∷ calls) (l, h) = rw (loud call.level l) (kept_silent calls h)
  where
    loud : (level : DebugLevel) → level ≢ silent → ltb 0 (level_number level) ≡ true
    loud silent l = absurd (l refl)
    loud basic l = refl
    loud verbose l = refl
    loud extreme l = refl

-- A release build keeps no message of a level above `None`, whatever the environment says.
pub new_config-log_all :
    (variable : Option (List ℕ)) (now : ℕ) (calls : List Call) (logger : DebugLogger)
    → AllLoud calls
    → (log_all (new_config false variable) calls (start_session now logger)).logs ≡ []
unfolding new_config
new_config-log_all variable now calls logger h =
    log_all-start_session (new_config false variable) now calls logger
    ∙ ap (map (λ (call : Call). log_entry (call.at - now) call.msg)) (kept_silent calls h)
