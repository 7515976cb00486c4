-- ===== src/ThreadPool/Traces.antt =====
-- A whole run of the worker queue beside a run of the waiting line that it stands for.
use distributed_software_upd.Prelude.{
  ℕ, zero, suc, ◌≡◌, refl, sym, subst, ap, ◌∙◌, Bool, true, false, List, [], ◌∷◌, some, pos,
}
use distributed_software_upd.ThreadPool.{
  Item, Queue, fresh, init, push, pop, shut_down, Popped, waits, stopped, got,
}
use distributed_software_upd.ThreadPool.Invariant.{
  IsValid, after, init-IsValid, push-IsValid, pop-IsValid, shut_down-IsValid,
}
use distributed_software_upd.ThreadPool.Refine.{
  Line, Served, idle, ended, next, admit, serve, line, served, push_refines, pop_refines,
  shut_down_refines,
}
use distributed_software_upd.ThreadPool.Threads.{Event, pushes, pops, shuts}

-- What a thread learns from its call.
pub data Reply : Type 0 where
  taken_in : Reply
  refused : Reply
  sleeps : Reply
  told_to_stop : Reply
  receives : Item → Reply
  nothing : Reply

abbrev pub push_reply : Bool → Reply
push_reply true = taken_in
push_reply false = refused

abbrev pub queue_pop : Queue → Popped → Reply × Queue
queue_pop q waits = (sleeps, q)
queue_pop q stopped = (told_to_stop, q)
queue_pop q (got i q') = (receives i, q')

-- One call of the queue.
unfoldable pub queue_call : Queue → Event → Reply × Queue
queue_call q (pushes i) = let (ok, q') = push q i in (push_reply ok, q')
queue_call q (pops id) = queue_pop q (pop q)
queue_call q shuts = (nothing, shut_down q)

-- A run of the queue: the replies in order, and the queue at the end.
unfoldable pub queue_run : Queue → List Event → List Reply × Queue
unfolding queue_call
queue_run q [] = ([], q)
queue_run q (e ∷ es) =
    let (r, q') = queue_call q e in let (rs, last) = queue_run q' es in (r ∷ rs, last)

abbrev pub line_pop : Line → Served → Reply × Line
line_pop l idle = (sleeps, l)
line_pop l ended = (told_to_stop, l)
line_pop l (next i l') = (receives i, l')

abbrev pub line_call : Line → Event → Reply × Line
line_call l (pushes i) = let (ok, l') = admit l i in (push_reply ok, l')
line_call l (pops id) = line_pop l (serve l)
line_call l shuts = (nothing, record l { closed = true })

abbrev pub line_run : Line → List Event → List Reply × Line
line_run l [] = ([], l)
line_run l (e ∷ es) =
    let (r, l') = line_call l e in let (rs, last) = line_run l' es in (r ∷ rs, last)

abbrev pub empty_line : ℕ → Line
empty_line n = record { waiting = []; limit = n; closed = false }

-- The same run, of which the line that the queue holds is seen.
abbrev pub seen : {A : Type 0} → A × Queue → A × Line
seen (a, q) = (a, line q)

queue_pop-line_pop : (q : Queue) (p : Popped) → seen (queue_pop q p) ≡ line_pop (line q) (served p)
queue_pop-line_pop q waits = refl
queue_pop-line_pop q stopped = refl
queue_pop-line_pop q (got i q') = refl

queue_call-line_call :
    (q : Queue) (e : Event) → IsValid q → seen (queue_call q e) ≡ line_call (line q) e
unfolding queue_call
queue_call-line_call q (pushes i) v =
    ap (λ (r : Bool × Line). (push_reply r.0, r.1)) (push_refines i v)
queue_call-line_call q (pops id) v =
    queue_pop-line_pop q (pop q) ∙ ap (line_pop (line q)) (pop_refines v)
queue_call-line_call q shuts v = ap (λ (l : Line). (nothing, l)) (shut_down_refines q)

queue_pop-after : (q : Queue) (p : Popped) → (queue_pop q p).1 ≡ after q p
queue_pop-after q waits = refl
queue_pop-after q stopped = refl
queue_pop-after q (got i q') = refl

queue_call-IsValid : (q : Queue) (e : Event) → IsValid q → IsValid (queue_call q e).1
unfolding queue_call
queue_call-IsValid q (pushes i) v = push-IsValid i v
queue_call-IsValid q (pops id) v =
    subst (λ x. IsValid x) (sym (queue_pop-after q (pop q))) (pop-IsValid v)
queue_call-IsValid q shuts v = shut_down-IsValid v

queue_run-line_run :
    (q : Queue) (es : List Event) → IsValid q → seen (queue_run q es) ≡ line_run (line q) es
unfolding queue_run
queue_run-line_run q [] v = refl
queue_run-line_run q (e ∷ es) v =
    let rest = queue_run-line_run (queue_call q e).1 es (queue_call-IsValid q e v) in
    ap (λ (r : List Reply × Line). ((queue_call q e).0 ∷ r.0, r.1)) rest
    ∙ ap (λ (c : Reply × Line). (c.0 ∷ (line_run c.1 es).0, (line_run c.1 es).1))
        (queue_call-line_call q e v)

init-line : (alloc : Bool) (n : ℕ) {q : Queue} → init alloc (pos n) ≡ some q → line q ≡ empty_line n
unfolding init
init-line true zero h = cc
init-line true (suc n) {q} h = let e : fresh (suc n) ≡ q = cc in rw (← e) refl
init-line false zero h = cc
init-line false (suc n) h = cc

-- A run of the queue that `tpq_init` makes cannot be told from a run of an empty line with that many
-- places: whatever calls the threads make in whatever order, each has the reply that the line gives
-- (taken in or refused, told to sleep or to stop, or the oldest connection that waits), and the queue
-- at the end holds the connections of the line at the end.
pub queue_run_refines :
    (alloc : Bool) (n : ℕ) {q : Queue} (es : List Event)
    → init alloc (pos n) ≡ some q
    → seen (queue_run q es) ≡ line_run (empty_line n) es
queue_run_refines alloc n {q} es h =
    let v = init-IsValid alloc (pos n) h in
    queue_run-line_run q es v.0 ∙ ap (λ (l : Line). line_run l es) (init-line alloc n h)
