-- ===== src/Acceptor.antt =====
-- Project_3/Project_3/src/server/acceptor.c: the loop that accepts connections and queues them. The log lines, the
-- time limits of a socket and the asking for the peer's address are left out.
pub mod Laws
mod Tests
use distributed_software_upd.Prelude.{
  ℕ, ◌+◌, Bool, true, false, ◌||◌, not, List, [], ◌∷◌, ◌++◌, CString, if◌then◌else◌, pos,
}
use distributed_software_upd.Net.{Outcome, Conn, conn_send_plain_busy}
use distributed_software_upd.ThreadPool.{Item, Queue, push}
use distributed_software_upd.Stats.{Stats}

-- What `select` and `accept` find. A failure ends the loop where the server stops or the listening
-- socket is gone. A connection has a socket, the peer's address and what `send` on it answers.
pub data Arrival : Type 0 where
  nothing : Arrival
  fails : Bool → Arrival
  arrives : Item → List Outcome → Arrival

pub record Round : Type 0 where
  pub running : Bool
  pub listening : Bool
  pub arrival : Arrival

-- The queue, the statistics, and the connections that were turned away and closed, with what was
-- written to them.
pub record Door : Type 0 where
  pub queue : Queue
  pub stats : Stats
  pub turned_away : List (Item × List ℕ)

abbrev pub plain : Item → List Outcome → Conn
plain item calls = record {
  fd = pos item.fd;
  ssl = false;
  calls = calls;
  incoming = [];
  outgoing = [];
}

abbrev pub queue_or_refuse : Item → List Outcome → Door → Bool × Queue → Door
queue_or_refuse item calls d (true, q) = record d { queue = q }
queue_or_refuse item calls d (false, q) = record d {
  turned_away = d.turned_away ++ (item, (conn_send_plain_busy (plain item calls)).1.outgoing) ∷ [];
}

abbrev pub count_connection : Door → Door
count_connection d = record d { stats = record d.stats { connections = d.stats.connections + 1 } }

unfoldable pub take_connection : Item → List Outcome → Door → Door
take_connection item calls d = queue_or_refuse item calls (count_connection d) (push d.queue item)

-- The loop over the rounds that are to come.
unfoldable pub accept_loop : List Round → Door → Door
unfolding take_connection
accept_loop [] d = d
accept_loop (r ∷ rs) d = elim (not r.running || not r.listening) [
  | true ↦ d
  | false ↦ elim r.arrival [
    | nothing ↦ accept_loop rs d
    | fails ends ↦ elim ends [ true ↦ d | false ↦ accept_loop rs d ]
    | arrives item calls ↦ accept_loop rs (take_connection item calls d)
  ]
]
