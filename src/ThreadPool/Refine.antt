-- ===== src/ThreadPool/Refine.antt =====
-- The circular array behaves as a bounded waiting line that can be closed.
use distributed_software_upd.Prelude.{
  ℕ, ◌≡◌, refl, inl, inr, Bool, true, false, ◌||◌, List, [], ◌∷◌, ◌++◌, leb, if◌then◌else◌, length,
  arith, entries, length-entries, entries-pos, entries-set,
}
use distributed_software_upd.ThreadPool.{
  Item, Queue, zero_item, push, pop, shut_down, Popped, waits, stopped, got,
}
use distributed_software_upd.ThreadPool.Invariant.{IsValid, pop-cases}

-- The connections that wait, the oldest first.
pub record Line : Type 0 where
  pub waiting : List Item
  pub limit : ℕ
  pub closed : Bool

pub data Served : Type 0 where
  idle : Served
  ended : Served
  next : Item → Line → Served

abbrev pub admit : Line → Item → Bool × Line
admit l i =
    if l.closed || leb l.limit (length l.waiting)
    then (false, l)
    else (true, record l { waiting = l.waiting ++ i ∷ [] })

abbrev serve_from : Line → List Item → Served
serve_from l [] = if l.closed then ended else idle
serve_from l (i ∷ rest) = next i (record l { waiting = rest })

abbrev pub serve : Line → Served
serve l = serve_from l l.waiting

abbrev pub contents : Queue → List Item
contents q = entries zero_item q.items q.capacity q.head q.count

abbrev pub line : Queue → Line
line q = record { waiting = contents q; limit = q.capacity; closed = q.shutdown }

abbrev pub served : Popped → Served
served waits = idle
served stopped = ended
served (got i q) = next i (line q)

pub length-contents : (q : Queue) → length (contents q) ≡ q.count
length-contents q = length-entries zero_item q.items q.capacity q.head q.count

-- `tpq_push` accepts and refuses as the line does, and leaves the queue holding its line.
pub push_refines :
    {q : Queue} (i : Item) → IsValid q → let (ok, q') = push q i in (ok, line q') ≡ admit (line q) i
unfolding push
push_refines {q} i v = ground (
  arith,
  length-contents q,
  entries-set zero_item q.items q.capacity q.head q.count q.tail i v.head_in,
)

-- `tpq_pop` waits, stops or hands out the oldest connection as the line does.
pub pop_refines : {q : Queue} → IsValid q → served (pop q) ≡ serve (line q)
pop_refines {q} v = elim (pop-cases q) [
  | inl (z, s, e) ↦ rw (e, z, s) refl
  | inr (inl (z, s, e)) ↦ rw (e, z, s) refl
  | inr (inr (p, e)) ↦
      rw (e, entries-pos zero_item q.items q.capacity q.head q.count v.head_in p) refl
]

pub shut_down_refines : (q : Queue) → line (shut_down q) ≡ record (line q) { closed = true }
unfolding shut_down
shut_down_refines q = refl
