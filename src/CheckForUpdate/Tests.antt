-- ===== src/CheckForUpdate/Tests.antt =====
-- The loop at a concrete input.
use distributed_software_upd.Prelude.{
  ◌≡◌, true, false, none, some, List, [], ◌∷◌, codes, pos, arith, ◌⊎◌,
}
use distributed_software_upd.VersionTable.{whole}
use distributed_software_upd.VersionTable.Progress.{fine}
use distributed_software_upd.Download.{Client}
use distributed_software_upd.Download.Receive.{Settings, Events}
use distributed_software_upd.CheckForUpdate.{Peer, Try, Exit, run_attempt, check_for_update}
use distributed_software_upd.CheckForUpdate.Attempts.{IsCalm, IsOffered, run_attempt-cases}
use distributed_software_upd.CheckForUpdate.Termination.{check_for_update_ends}

abbrev settings : Settings
settings = record { client_id = codes "alice"; download_dir = codes "d"; version_file = codes "t" }

abbrev no_events : Events
no_events = record {
  stop = false;
  opens = true;
  meta_opens = true;
  allocates = true;
  pause_rounds = 100;
  rounds =
      record {
        pause = true;
        waits = record { stop = false; resume = true } ∷ [];
        stop = false;
        stop_late = false;
        writes = 1;
      }
      ∷ [];
  flush_keeps = none;
  reads = λ _. none;
  renames = true;
  table = fine;
}

abbrev calm_events : Events
calm_events = record no_events { rounds = [] }

abbrev absent : Peer
absent = record {
  opened = none;
  secures = true;
  stop_connected = false;
  stop_failed = false;
  stop_after = false;
  events = calm_events;
}

abbrev resuming : Peer
resuming = record absent { events = no_events }

abbrev passes : List Try
passes =
    record { stop = false; peer = absent; stop_waiting = false }
    ∷ (record { stop = false; peer = resuming; stop_waiting = false }
        ∷ (record { stop = false; peer = absent; stop_waiting = false } ∷ []))

abbrev client : Client
client = record {
  conn = record { fd = pos 0; ssl = false; calls = []; incoming = []; outgoing = [] };
  disk = λ _. none;
  is_paused = false;
  resume_retry_active = false;
}

run_attempt-cases_example :
    IsCalm client (run_attempt settings true absent (codes "1.0.0") client)
    ⊎ IsOffered settings true absent (codes "1.0.0") client
run_attempt-cases_example = run_attempt-cases settings true absent (codes "1.0.0") client

check_for_update_ends_example :
    (x : Exit × Client) × (check_for_update settings true 2 [] true whole passes client ≡ some x)
check_for_update_ends_example =
    check_for_update_ends settings true 2 [] true whole passes client (omega arith)
