-- ===== src/ThreadPool/Tests.antt =====
-- The worker queue at concrete inputs.
use distributed_software_upd.Prelude.{
  ◌≤◌, ◌≡◌, refl, ◌≢◌, true, false, List, [], ◌∷◌, ◌++◌, codes, pos, arith,
}
use distributed_software_upd.ThreadPool.{
  Item, Queue, zero_item, fresh, init, push, pop, shut_down, waits,
}
use distributed_software_upd.ThreadPool.Invariant.{IsValid}
use distributed_software_upd.ThreadPool.Refine.{contents}
use distributed_software_upd.ThreadPool.Threads.{
  Event, pushes, pops, shuts, World, step, run, start, items, run_fifo, run_closed,
  drain_serves_all, IsSound,
}
use distributed_software_upd.ThreadPool.Traces.{
  sleeps, taken_in, refused, receives, nothing, told_to_stop, queue_run, queue_call, line_run,
  empty_line, seen, queue_run_refines,
}

abbrev first : Item
first = record { fd = 7; client_info = codes "127.0.0.1:9 fd=7" }

abbrev second : Item
second = record { fd = 8; client_info = codes "127.0.0.1:9 fd=8" }

-- `second`, then `first`, round the end of the array.
abbrev wrapped : Queue
wrapped = record {
  items = first ∷ zero_item ∷ second ∷ [];
  capacity = 3;
  head = 2;
  tail = 1;
  count = 2;
  shutdown = false;
}

abbrev closed : Queue
closed = record wrapped { shutdown = true }

abbrev schedule : List Event
schedule = pushes first ∷ pops 1 ∷ pops 2 ∷ pushes second ∷ pushes first ∷ shuts ∷ pops 2 ∷ []

abbrev half_run : World
half_run = record { queue = wrapped; accepted = second ∷ first ∷ []; handed = [] }

wrapped-IsValid : IsValid wrapped
wrapped-IsValid = omega arith

half_run-IsSound : IsSound half_run
half_run-IsSound = record { valid = wrapped-IsValid; kept = refl }

schedule_runs : items (run (start (fresh 1)) schedule).handed ≡ first ∷ second ∷ []
unfolding run step push pop shut_down
schedule_runs = refl

run_fifo_example :
    let w = run (start (fresh 1)) schedule in
    (w.accepted ≡ items w.handed ++ contents w.queue) × (w.queue.count ≤ w.queue.capacity)
unfolding init
run_fifo_example = run_fifo true (pos 1) schedule refl

run_closed_example :
    let w = start closed in ((run w schedule).accepted ≡ []) × (pop (run w schedule).queue ≢ waits)
run_closed_example = run_closed (start closed) schedule refl

drain_serves_all_example :
    items (run half_run (pops 5 ∷ pops 5 ∷ [])).handed
    ≡ (run half_run (pops 5 ∷ pops 5 ∷ [])).accepted
drain_serves_all_example = drain_serves_all half_run 5 half_run-IsSound

-- Two places: the third connection is refused, the second goes round the end of the array, and after
-- the shutdown the worker is told to stop.
abbrev calls : List Event
calls =
    pops 1
    ∷ pushes first
    ∷ pushes second
    ∷ pushes first
    ∷ pops 1
    ∷ pushes first
    ∷ pops 2
    ∷ shuts
    ∷ pushes second
    ∷ pops 1
    ∷ pops 2
    ∷ []

replies :
    (queue_run (fresh 2) calls).0
    ≡ sleeps
      ∷ taken_in
      ∷ taken_in
      ∷ refused
      ∷ receives first
      ∷ taken_in
      ∷ receives second
      ∷ nothing
      ∷ refused
      ∷ receives first
      ∷ told_to_stop
      ∷ []
unfolding queue_run queue_call push pop shut_down
replies = refl

queue_run_refines_example : seen (queue_run (fresh 2) calls) ≡ line_run (empty_line 2) calls
unfolding init
queue_run_refines_example = queue_run_refines true 2 calls refl
