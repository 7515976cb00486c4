-- ===== src/ThreadPool/Threads.antt =====
-- The acceptor, the workers and the shutdown as an interleaving of their critical sections.
use distributed_software_upd.Prelude.{
  ℕ, ◌≤◌, ◌<◌, ◌≡◌, refl, sym, ap, ◌∙◌, inl, inr, Bool, true, false, List, [], ◌∷◌, ◌++◌,
  if◌then◌else◌, some, map, ℤ, arith, append_assoc, append-nil, ◌≢◌, replicate, zero, suc, ◌-◌,
}
use mathlib.Core.List.{map-append}
use distributed_software_upd.ThreadPool.{
  Item, Queue, init, push, pop, shut_down, Popped, waits, stopped, got,
}
use distributed_software_upd.ThreadPool.Invariant.{
  IsValid, after, init-IsValid, push-IsValid, pop-IsValid, shut_down-IsValid, pop-cases,
}
use distributed_software_upd.ThreadPool.Refine.{
  Line, line, contents, serve, served, push_refines, pop_refines, shut_down_refines,
}

-- A critical section: the acceptor's, that of a worker with its id, and the shutdown's.
pub data Event : Type 0 where
  pushes : Item → Event
  pops : ℕ → Event
  shuts : Event

-- The queue, what it has accepted, and which worker was handed what, each in order.
pub record World : Type 0 where
  pub queue : Queue
  pub accepted : List Item
  pub handed : List (ℕ × Item)

abbrev pub record_push : World → Item → Bool × Queue → World
record_push w i (true, q) = record w { queue = q; accepted = w.accepted ++ i ∷ [] }
record_push w i (false, q) = record w { queue = q }

abbrev pub record_pop : World → ℕ → Popped → World
record_pop w id waits = w
record_pop w id stopped = w
record_pop w id (got i q) = record w { queue = q; handed = w.handed ++ (id, i) ∷ [] }

unfoldable pub step : World → Event → World
step w (pushes i) = record_push w i (push w.queue i)
step w (pops id) = record_pop w id (pop w.queue)
step w shuts = record w { queue = shut_down w.queue }

unfoldable pub run : World → List Event → World
run w [] = w
run w (e ∷ es) = run (step w e) es

abbrev pub start : Queue → World
start q = record { queue = q; accepted = []; handed = [] }

abbrev pub items : List (ℕ × Item) → List Item
items = map (λ p. p.1)

-- The queue is valid, and what it accepted is what it handed out and what still waits.
pub record IsSound (w : World) : Type 0 where
  pub valid : IsValid w.queue
  pub kept : w.accepted ≡ items w.handed ++ contents w.queue

contents-push :
    {q : Queue} (i : Item)
    → IsValid q
    → contents (push q i).1 ≡ (if (push q i).0 then contents q ++ i ∷ [] else contents q)
contents-push {q} i v = ground (arith, push_refines i v)

step-push :
    (w : World) (i : Item) (r : Bool × Queue)
    → contents r.1 ≡ (if r.0 then contents w.queue ++ i ∷ [] else contents w.queue)
    → IsSound w
    → IsValid r.1
    → IsSound (record_push w i r)
step-push w i (true, q) e s v = record { valid = v; kept = rw (s.kept, append_assoc, e) refl }
step-push w i (false, q) e s v = record { valid = v; kept = rw e s.kept }

step-pop :
    (w : World) (id : ℕ) (r : Popped)
    → served r ≡ serve (line w.queue)
    → IsSound w
    → IsValid (after w.queue r)
    → IsSound (record_pop w id r)
step-pop w id waits e s v = s
step-pop w id stopped e s v = s
step-pop w id (got i q) e s v = record {
  valid = v;
  kept = rw (s.kept, map-append, append_assoc) (ground (arith, e));
}

step-IsSound : (w : World) (e : Event) → IsSound w → IsSound (step w e)
unfolding step
step-IsSound w (pushes i) s =
    step-push w i (push w.queue i) (contents-push i s.valid) s (push-IsValid i s.valid)
step-IsSound w (pops id) s =
    step-pop w id (pop w.queue) (pop_refines s.valid) s (pop-IsValid s.valid)
step-IsSound w shuts s = record {
  valid = shut_down-IsValid s.valid;
  kept = s.kept ∙ ap (λ (l : Line). items w.handed ++ l.waiting) (sym (shut_down_refines w.queue));
}

run-IsSound : (w : World) (es : List Event) → IsSound w → IsSound (run w es)
unfolding run
run-IsSound w [] s = s
run-IsSound w (e ∷ es) s = run-IsSound (step w e) es (step-IsSound w e s)

-- Whatever the acceptor, the workers and the shutdown do, from an initialised queue on: the
-- connections handed to workers, in order, followed by those that still wait, are exactly the
-- connections that were accepted, in order; and no more wait than the queue's capacity.
pub run_fifo :
    (alloc : Bool) (n : ℤ) {q : Queue} (es : List Event)
    → init alloc n ≡ some q
    → let w = run (start q) es in
      (w.accepted ≡ items w.handed ++ contents w.queue) × (w.queue.count ≤ w.queue.capacity)
run_fifo alloc n {q} es e = (s.kept, s.valid.count_in)
  where
    v : IsValid q × (q.count ≡ 0) × (q.shutdown ≡ false)
    v = init-IsValid alloc n e

    none_yet : contents q ≡ []
    none_yet = rw v.1 refl

    s : IsSound (run (start q) es)
    s = run-IsSound (start q) es (record { valid = v.0; kept = sym none_yet })

step-closed :
    (w : World) (e : Event)
    → w.queue.shutdown ≡ true
    → ((step w e).queue.shutdown ≡ true) × ((step w e).accepted ≡ w.accepted)
unfolding step push pop shut_down
step-closed w (pushes i) h = ground arith
step-closed w (pops id) h = elim (pop-cases w.queue) [
  | inl (_, _, e) ↦ rw (e) (h, refl)
  | inr (inl (_, _, e)) ↦ rw (e) (h, refl)
  | inr (inr (_, e)) ↦ rw (e) (h, refl)
]
step-closed w shuts h = (refl, refl)

-- Once the queue is shut down it accepts nothing more, whatever the threads do, and no thread that
-- asks for a connection is left waiting.
pub run_closed :
    (w : World) (es : List Event)
    → w.queue.shutdown ≡ true
    → ((run w es).accepted ≡ w.accepted) × (pop (run w es).queue ≢ waits)
unfolding run
run_closed w [] h = (refl, awake)
  where
    awake : pop w.queue ≢ waits
    awake e = elim (pop-cases w.queue) [
      | inl (_, _, f) ↦ cc
      | inr (inl (_, f, _)) ↦ cc
      | inr (inr (_, f)) ↦ cc
    ]
run_closed w (e ∷ es) h =
    let k = step-closed w e h in let r = run_closed (step w e) es k.0 in (r.0 ∙ k.1, r.1)

step-pop_pos :
    (w : World) (id : ℕ) → 0 < w.queue.count → (step w (pops id)).queue.count ≡ w.queue.count - 1
unfolding step pop
step-pop_pos w id h = elim (pop-cases w.queue) [
  | inl (e, _, _) ↦ absurd (omega arith)
  | inr (inl (e, _, _)) ↦ absurd (omega arith)
  | inr (inr (_, e)) ↦ rw e refl
]

drain :
    (w : World) (id n : ℕ)
    → IsSound w
    → w.queue.count ≡ n
    → items (run w (replicate n (pops id))).handed ≡ (run w (replicate n (pops id))).accepted
unfolding run
drain w id zero s e = rw (s.kept, e, append-nil) refl
drain w id (suc n) s e =
    drain (step w (pops id)) id n (step-IsSound w (pops id) s)
      (step-pop_pos w id (omega arith) ∙ omega arith)

-- As many pops as connections wait hand all of them out: then every accepted connection has gone
-- to a worker, in the order of acceptance.
pub drain_serves_all :
    (w : World) (id : ℕ)
    → IsSound w
    → let w' = run w (replicate w.queue.count (pops id)) in items w'.handed ≡ w'.accepted
drain_serves_all w id s = drain w id w.queue.count s refl
