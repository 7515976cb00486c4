-- ===== src/Logger/Tests.antt =====
-- A logger at concrete inputs.
use distributed_software_upd.Prelude.{◌≡◌, refl, true, List, [], ◌∷◌, codes, min, pos, some}
use distributed_software_upd.Logger.{
  log_debug, log_info, log_error, Logger, logger_start, logger_stop, logger_recent, ring_size,
}
use distributed_software_upd.Logger.Recent.{newest}
use distributed_software_upd.Logger.Refine.{journal}
use distributed_software_upd.Logger.Runs.{Event, logs, turns, run, follow, empty, logger_runs}
use distributed_software_upd.Logger.Drain.{flush_journal, logger_stop-run}

abbrev events : List Event
events =
    logs log_info (codes "a")
    ∷ (logs log_debug (codes "b") ∷ (turns ∷ (logs log_error (codes "c") ∷ [])))

abbrev started : Logger
started = (logger_start [] log_info true true).1

logger_runs_example :
    (journal (run started events) ≡ follow log_info empty events)
    × (logger_recent (run started events).ring (pos 3)
        ≡ newest (min 3 ring_size) (follow log_info empty events).output)
logger_runs_example = logger_runs [] log_info true events 3

logger_stop-run_example :
    (l : Logger) × (logger_stop (run started events) ≡ some l)
    × (l.written ≡ flush_journal (follow log_info empty events))
logger_stop-run_example = logger_stop-run [] log_info true events

waits_in_order :
    follow log_info empty events
    ≡ record { waiting = codes "c" ∷ []; lost = 0; output = codes "a" ∷ [] }
waits_in_order = refl
