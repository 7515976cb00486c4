-- ===== src/ThreadPool/Invariant.antt =====
-- The representation invariant of the worker queue.
use distributed_software_upd.Prelude.{
  ℕ, zero, suc, ◌+◌, ◌%◌, ◌≤◌, ◌<◌, ◌≡◌, refl, Bool, true, false, ◌⊎◌, inl, inr, none, some, ℤ, pos,
  negsuc, length, length-set, length-replicate, arith, ◌==◌, ℕ_discrete, Bool-cases, round-push,
  round-pop,
}
use distributed_software_upd.ThreadPool.{
  Item, Queue, zero_item, init, push, pop, shut_down, Popped, waits, stopped, got, taken,
}

pub record IsValid (q : Queue) : Type 0 where
  pub storage : q.capacity ≤ length q.items
  pub head_in : q.head < q.capacity
  pub count_in : q.count ≤ q.capacity
  pub tail_at : q.tail ≡ (q.head + q.count) % q.capacity

-- What a pop leaves behind.
abbrev pub after : Queue → Popped → Queue
after q waits = q
after q stopped = q
after q (got i r) = r

-- `tpq_init` accepts the positive capacities for which there is memory, and no other.
pub init_iff : (alloc : Bool) (n : ℕ) → init alloc (pos (suc n)) ≡ none → alloc ≡ false
unfolding init
init_iff true n e = cc
init_iff false n e = refl

-- A queue that `tpq_init` returns is valid, empty and open.
pub init-IsValid :
    (alloc : Bool) (n : ℤ) {q : Queue}
    → init alloc n ≡ some q
    → IsValid q × (q.count ≡ 0) × (q.shutdown ≡ false)
unfolding init
init-IsValid alloc (negsuc n) e = cc
init-IsValid alloc (pos zero) e = cc
init-IsValid true (pos (suc n)) e = ground (arith, length-replicate (suc n) zero_item)
init-IsValid false (pos (suc n)) e = cc

pub push-IsValid : {q : Queue} (i : Item) → IsValid q → IsValid (push q i).1
unfolding push
push-IsValid {q} i v =
    ground (arith, length-set q.items q.tail i, round-push q.capacity q.head q.count)

taken-IsValid : {q : Queue} → IsValid q → 0 < q.count → IsValid (after q (taken q))
taken-IsValid {q} v p = ground (arith, round-pop q.capacity q.head q.count p)

-- The ways a pop can go.
pub pop-cases :
    (q : Queue)
    → ((q.count ≡ 0) × (q.shutdown ≡ true) × (pop q ≡ stopped))
      ⊎ ((q.count ≡ 0) × (q.shutdown ≡ false) × (pop q ≡ waits))
      ⊎ ((0 < q.count) × (pop q ≡ taken q))
unfolding pop
pop-cases q = elim (ℕ_discrete q.count 0) [
  | yes e ↦ elim (Bool-cases q.shutdown) [
    | inl s ↦ inl (e, s, ground arith)
    | inr s ↦ inr (inl (e, s, ground arith))
  ]
  | no e ↦ let t : (q.count == 0) ≡ false = ground arith in inr (inr (ground arith, rw t refl))
]

pub pop-IsValid : {q : Queue} → IsValid q → IsValid (after q (pop q))
pop-IsValid {q} v = elim (pop-cases q) [
  | inl (_, _, e) ↦ rw e v
  | inr (inl (_, _, e)) ↦ rw e v
  | inr (inr (p, e)) ↦ rw e (taken-IsValid v p)
]

pub shut_down-IsValid : {q : Queue} → IsValid q → IsValid (shut_down q)
unfolding shut_down
shut_down-IsValid v = ground arith
