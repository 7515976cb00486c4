-- ===== src/Acceptor/Tests.antt =====
-- Two connections for one place.
use distributed_software_upd.Prelude.{◌≡◌, refl, true, false, List, [], ◌∷◌, codes, arith}
use distributed_software_upd.Net.{moved}
use distributed_software_upd.ThreadPool.{Item, fresh}
use distributed_software_upd.ThreadPool.Invariant.{IsValid}
use distributed_software_upd.Stats.{stats_init}
use distributed_software_upd.Acceptor.{Arrival, nothing, fails, arrives, Round, Door, accept_loop}
use distributed_software_upd.Acceptor.Laws.{Admits, arrived, accept_loop-Admits}

abbrev first : Item
first = record { fd = 7; client_info = codes "127.0.0.1:9 fd=7" }

abbrev second : Item
second = record { fd = 8; client_info = codes "127.0.0.1:9 fd=8" }

abbrev on : Arrival → Round
on a = record { running = true; listening = true; arrival = a }

abbrev rounds : List Round
rounds =
    on nothing
    ∷ on (arrives first (moved 5 ∷ []))
    ∷ on (fails false)
    ∷ on (arrives second (moved 5 ∷ []))
    ∷ on (fails true)
    ∷ on (arrives first [])
    ∷ []

abbrev door : Door
door = record { queue = fresh 1; stats = stats_init 4; turned_away = [] }

fresh-IsValid : IsValid (fresh 1)
fresh-IsValid = record {
  storage = omega arith;
  head_in = omega arith;
  count_in = omega arith;
  tail_at = refl;
}

two_arrived : arrived rounds ≡ first ∷ second ∷ []
two_arrived = refl

accept_loop-Admits_example : Admits door (arrived rounds) (accept_loop rounds door)
accept_loop-Admits_example = accept_loop-Admits rounds door fresh-IsValid
