-- ===== src/Prover/Logger/Tests.antt =====
-- The logger at concrete sessions.
use provii_crypto.Prelude.{◌-◌, ◌≡◌, refl, true, false, List, [], ◌∷◌, some, map}
use provii_crypto.Prelude.Bytes.{codes}
use provii_crypto.Commons.Civil.{decimal}
use provii_crypto.Prover.Runtime.{basic, verbose, RuntimeConfig}
use provii_crypto.Prover.Logger.{
  Call, new_logger, new_config, start_session, log, log_all, log_entry, join_lines, dump_all, kept,
  log_all-start_session,
}

abbrev calls : List Call
calls =
    record { level = basic; at = 1012; msg = codes "started" }
    ∷ record { level = verbose; at = 1013; msg = codes "packing" }
    ∷ record { level = basic; at = 2500; msg = codes "done" }
    ∷ []

-- Without a value of the variable a debug build keeps the basic messages.
abbrev debug_build : RuntimeConfig
debug_build = record { is_mobile = false; max_threads = 1; debug_level = basic }

debug_config : new_config true (some (codes "loud")) ≡ debug_build
unfolding new_config
debug_config = refl

dumped :
    dump_all (log_all debug_build calls (start_session 1000 new_logger))
    ≡ codes "[    12ms] started\n[  1500ms] done"
unfolding log_all log log_entry decimal join_lines
dumped = refl

log_all-start_session_example :
    (log_all debug_build calls (start_session 1000 new_logger)).logs
    ≡ map (λ (call : Call). log_entry (call.at - 1000) call.msg) (kept basic calls)
log_all-start_session_example = log_all-start_session debug_build 1000 calls new_logger
