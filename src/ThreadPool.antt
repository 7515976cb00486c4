-- ===== src/ThreadPool.antt =====
-- Project_3/Project_3/src/common/threadpool.c: the queue of accepted connections between the acceptor and the workers.
-- Each function is one critical section under `q->lock`, so a run of the threads is a sequence of
-- calls. A pointer argument is a value here: no caller passes NULL.
pub mod Invariant
pub mod Refine
pub mod Threads
pub mod Traces
mod Tests
use distributed_software_upd.Prelude.{
  ℕ, zero, suc, ◌+◌, ◌-◌, ◌%◌, Bool, true, false, ◌||◌, Option, none, some, List, [], CString, ℤ,
  pos, negsuc, ltb, leb, ◌==◌, if◌then◌else◌, get_or, set, replicate,
}

-- `tpq_item_t`
pub record Item : Type 0 where
  pub fd : ℕ
  pub client_info : CString

-- `tpq_t`, without its lock and its condition variable.
pub record Queue : Type 0 where
  pub items : List Item
  pub capacity : ℕ
  pub head : ℕ
  pub tail : ℕ
  pub count : ℕ
  pub shutdown : Bool

-- What `calloc` and `memset` leave.
abbrev pub zero_item : Item
zero_item = record { fd = 0; client_info = [] }

abbrev pub zero_queue : Queue
zero_queue = record { items = []; capacity = 0; head = 0; tail = 0; count = 0; shutdown = false }

abbrev pub fresh : ℕ → Queue
fresh n = record zero_queue { items = replicate n zero_item; capacity = n }

-- `alloc` says whether `calloc` gives the memory; `none` is the return of -1.
unfoldable pub init : Bool → ℤ → Option Queue
init alloc (negsuc n) = none
init alloc (pos zero) = none
init true (pos (suc n)) = some (fresh (suc n))
init false (pos (suc n)) = none

pub destroy : Queue → Queue
destroy q = zero_queue

-- The flag is `true` for the return of 0.
unfoldable pub push : Queue → Item → Bool × Queue
push q item = if q.shutdown || leb q.capacity q.count then (false, q) else (
  true,
  record q {
    items = set q.items q.tail item;
    tail = (q.tail + 1) % q.capacity;
    count = q.count + 1;
  },
)

-- `waits`: the thread stays in `pthread_cond_wait`, and has changed nothing.
pub data Popped : Type 0 where
  waits : Popped
  stopped : Popped
  got : Item → Queue → Popped

abbrev pub taken : Queue → Popped
taken q =
    got (get_or q.items q.head zero_item)
      (record q { head = (q.head + 1) % q.capacity; count = q.count - 1 })

unfoldable pub pop : Queue → Popped
pop q = if q.count == 0 then (if q.shutdown then stopped else waits) else taken q

unfoldable pub shut_down : Queue → Queue
shut_down q = record q { shutdown = true }
