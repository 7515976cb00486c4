-- ===== src/Net/Tests.antt =====
-- The byte loops at concrete inputs.
use distributed_software_upd.Prelude.{◌≤◌, ◌≡◌, refl, true, false, [], ◌∷◌, pos, arith}
use distributed_software_upd.Net.{
  Conn, moved, interrupted, want, conn_write_all, conn_read_all, conn_send_plain_busy, conn_close,
  busy,
}
use distributed_software_upd.Net.Laws.{Wrote, conn_write_all_lem, conn_read_all_lem}
use distributed_software_upd.Net.Progress.{Lively, conn_read_all_progress}

-- A TLS connection whose calls move two bytes, then are interrupted, then move the rest.
abbrev conn : Conn
conn = record {
  fd = pos 5;
  ssl = true;
  calls = moved 2 ∷ want ∷ moved 9 ∷ moved 9 ∷ [];
  incoming = 1 ∷ 2 ∷ 3 ∷ 4 ∷ [];
  outgoing = [];
}

writes : (conn_write_all conn (7 ∷ 8 ∷ 9 ∷ [])).1.outgoing ≡ 7 ∷ 8 ∷ 9 ∷ []
unfolding conn_write_all
writes = refl

reads : (conn_read_all conn 3).1 ≡ 1 ∷ 2 ∷ 3 ∷ []
unfolding conn_read_all
reads = refl

-- EINTR is no reason to go on where TLS is used.
stops : (conn_write_all (record conn { calls = interrupted ∷ moved 9 ∷ [] }) (7 ∷ [])).0 ≡ false
unfolding conn_write_all
stops = refl

says_busy :
    (conn_send_plain_busy (record conn { ssl = false; calls = moved 9 ∷ [] })).1.outgoing ≡ busy
unfolding conn_send_plain_busy
says_busy = refl

closes_once : conn_close (conn_close conn) ≡ conn_close conn
unfolding conn_close
closes_once = refl

conn_write_all_lem_example :
    Wrote
      (7 ∷ 8 ∷ [])
      []
      ((conn_write_all conn (7 ∷ 8 ∷ [])).0, (conn_write_all conn (7 ∷ 8 ∷ [])).1.outgoing)
    × ((conn_write_all conn (7 ∷ 8 ∷ [])).1.incoming ≡ 1 ∷ 2 ∷ 3 ∷ 4 ∷ [])
    × ((conn_write_all conn (7 ∷ 8 ∷ [])).1.ssl ≡ true)
conn_write_all_lem_example = conn_write_all_lem conn (7 ∷ 8 ∷ [])

conn_read_all_lem_example :
    ((conn_read_all conn 3).1 ≡ 1 ∷ 2 ∷ 3 ∷ [])
    × ((conn_read_all conn 3).2.incoming ≡ 4 ∷ [])
    × (3 ≤ 4)
    × ((conn_read_all conn 3).2.outgoing ≡ [])
    × ((conn_read_all conn 3).2.ssl ≡ true)
unfolding conn_read_all
conn_read_all_lem_example = conn_read_all_lem conn 3 refl

conn_read_all_progress_example :
    ((conn_read_all conn 2).0 ≡ true)
    × Lively (conn_read_all conn 2).2.ssl (conn_read_all conn 2).2.calls 1
conn_read_all_progress_example = conn_read_all_progress conn 2 1 (omega arith) (refl, tt)
