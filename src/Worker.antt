-- ===== src/Worker.antt =====
-- Project_3/Project_3/src/server/worker.c, `worker_thread`: the loop of one worker, from the queue to the end of each
-- session. The log lines and the table of the workers' sockets are left out.
pub mod Laws
mod Tests
use distributed_software_upd.Prelude.{
  ℕ, ◌+◌, ◌-◌, Bool, true, false, ◌&&◌, not, List, [], ◌∷◌, ◌++◌, CString, if◌then◌else◌, pos,
}
use distributed_software_upd.Net.{Conn}
use distributed_software_upd.ThreadPool.{Item, Queue, Popped, waits, stopped, got, pop}
use distributed_software_upd.Stats.{Stats, stats_active_client_add, stats_active_client_remove}
use distributed_software_upd.ActiveIds.{Slots}
use distributed_software_upd.Package.{Ready}
use distributed_software_upd.Session.{Env, Talk}
use distributed_software_upd.Session.Serve.{handle_client_session}

-- What the workers share, and the connections that were closed.
pub record Server : Type 0 where
  pub queue : Queue
  pub slots : Slots
  pub stats : Stats
  pub closed : List Item

-- What one pass of the loop meets: the two tests of `running`, whether the TLS handshake succeeds, the
-- connection's stream with the answers of `select`, and what the session reads.
pub record Visit : Type 0 where
  pub running : Bool
  pub still_running : Bool
  pub handshake : Bool
  pub stream : Conn
  pub selects : List Ready
  pub env : Env

-- A pass waits for a connection, ends the loop, or goes on.
pub data Pass : Type 0 where
  blocks : Pass
  stops : Server → Pass
  continues : Server → Pass

abbrev pub close_item : Item → Server → Server
close_item item w = record w { closed = w.closed ++ item ∷ [] }

-- The accounting around a session.
abbrev pub begin_client : Item → Stats → Stats
begin_client item s =
    stats_active_client_add (record s { busy_workers = s.busy_workers + 1 }) item.client_info
      item.client_info

abbrev pub end_client : Item → Stats → Stats
end_client item s =
    let s' = stats_active_client_remove s item.client_info in
    record s' { busy_workers = s'.busy_workers - 1 }

abbrev pub count_failure : Bool → Stats → Stats
count_failure true s = s
count_failure false s = record s { errors = s.errors + 1 }

-- The session has returned.
abbrev pub after_session : Item → Server → Bool × Slots × Talk → Server
after_session item w (ok, slots, t) =
    close_item item (record w { slots = slots; stats = end_client item (count_failure ok t.stats) })

unfoldable pub attend_client : Bool → Visit → Item → Server → Server
attend_client enable_tls v item w =
    let begun = begin_client item w.stats in
    if enable_tls && not v.handshake
    then close_item item (record w { stats = end_client item (count_failure false begun) })
    else after_session item w (
        handle_client_session (record v.env { client_info = item.client_info }) w.slots
          (record {
            conn = record v.stream { fd = pos item.fd; ssl = enable_tls };
            selects = v.selects;
            stats = begun;
          }))

abbrev pub on_popped : Bool → Visit → Server → Popped → Pass
on_popped enable_tls v w waits = blocks
on_popped enable_tls v w stopped = stops w
on_popped enable_tls v w (got item q) =
    if not v.still_running
    then stops (close_item item (record w { queue = q }))
    else continues (attend_client enable_tls v item (record w { queue = q }))

unfoldable pub worker_pass : Bool → Visit → Server → Pass
unfolding attend_client
worker_pass enable_tls v w =
    if not v.running then stops w else on_popped enable_tls v w (pop w.queue)

-- The loop over the passes that are to come; the worker waits behind them.
unfoldable pub worker_loop : Bool → List Visit → Server → Server
unfolding worker_pass
worker_loop enable_tls [] w = w
worker_loop enable_tls (v ∷ vs) w = elim (worker_pass enable_tls v w) [
  | blocks ↦ w
  | stops w' ↦ w'
  | continues w' ↦ worker_loop enable_tls vs w'
]
