-- ===== src/Acceptor/Laws.antt =====
-- What becomes of the connections that arrive.
use distributed_software_upd.Prelude.{
  ℕ, zero, suc, ◌+◌, ◌-◌, ◌≡◌, refl, sym, ap, subst, ◌∙◌, ◌⊎◌, inl, inr, true, false, ◌||◌, not,
  List, [], ◌∷◌, ◌++◌, append_assoc, append-nil, map, length, take, drop, leb, set, ◌%◌, ◌<◌,
  if◌then◌else◌, arith, Bool-cases, entries, entries-set,
}
use distributed_software_upd.Net.{Outcome, conn_send_plain_busy}
use distributed_software_upd.ThreadPool.{Item, Queue, zero_item, push}
use distributed_software_upd.ThreadPool.Invariant.{IsValid, push-IsValid}
use distributed_software_upd.ThreadPool.Refine.{contents}
use distributed_software_upd.Acceptor.{
  Arrival, nothing, fails, arrives, Round, Door, plain, queue_or_refuse, count_connection,
  take_connection, accept_loop,
}

-- The connections that are accepted before the loop ends.
abbrev pub arrived : List Round → List Item
arrived [] = []
arrived (r ∷ rs) = elim (not r.running || not r.listening) [
  | true ↦ []
  | false ↦ elim r.arrival [
    | nothing ↦ arrived rs
    | fails ends ↦ elim ends [ true ↦ [] | false ↦ arrived rs ]
    | arrives item calls ↦ item ∷ arrived rs
  ]
]

-- The places that are left in the queue.
abbrev pub room : Queue → ℕ
room q = if q.shutdown then 0 else q.capacity - q.count

abbrev pub first {ℓ κ} : {A : Type ℓ} {B : Type κ} → A × B → A
first p = p.0

-- Of the items that came to `d`, as many are queued as there was room for, in their order, and the
-- others are turned away; all are counted.
pub record Admits (d : Door) (items : List Item) (d' : Door) : Type 0 where
  pub refused : List (Item × List ℕ)
  pub queues : contents d'.queue ≡ contents d.queue ++ take (room d.queue) items
  pub refuses : d'.turned_away ≡ d.turned_away ++ refused
  pub the_rest : map first refused ≡ drop (room d.queue) items
  pub counts : d'.stats.connections ≡ d.stats.connections + length items
  pub valid : IsValid d'.queue

take_nothing : (n : ℕ) → take {A = Item} n [] ≡ []
take_nothing zero = refl
take_nothing (suc n) = refl

drop_nothing : (n : ℕ) → drop {A = Item} n [] ≡ []
drop_nothing zero = refl
drop_nothing (suc n) = refl

nobody_came : (d : Door) → IsValid d.queue → Admits d [] d
nobody_came d v = record {
  refused = [];
  queues = sym (
      ap (λ xs. contents d.queue ++ xs) (take_nothing (room d.queue))
      ∙ append-nil (contents d.queue));
  refuses = sym (append-nil d.turned_away);
  the_rest = sym (drop_nothing (room d.queue));
  counts = omega arith;
  valid = v;
}

-- A push takes one place, or there was none.
push_cases :
    (q : Queue) (item : Item)
    → IsValid q
    → ((push q item ≡ (false, q)) × (room q ≡ 0))
      ⊎ ((q' : Queue) × (push q item ≡ (true, q'))
          × (room q ≡ suc (room q'))
          × (contents q' ≡ contents q ++ item ∷ [])
          × IsValid q')
unfolding push
push_cases q item v = elim (Bool-cases (q.shutdown || leb q.capacity q.count)) [
  | inl t ↦ inl (rw (t, if◌then◌else◌) refl, ground arith)
  | inr t ↦
      let e : push q item ≡ (true, pushed) = rw (t, if◌then◌else◌) refl in
      let open_still : q.shutdown ≡ false = ground arith in
      let some_room : q.count < q.capacity = ground arith in
      inr (
        pushed,
        e,
        rw (open_still, if◌then◌else◌) (omega (arith, some_room)),
        ap (λ (k : ℕ). entries zero_item (set q.items q.tail item) q.capacity q.head k)
              {x = q.count + 1} {y = suc q.count} (omega arith)
            ∙ entries-set zero_item q.items q.capacity q.head q.count q.tail item v.head_in
                some_room v.storage v.tail_at,
        subst (λ r. IsValid r.1) e (push-IsValid item v),
      )
]
  where
    pushed : Queue
    pushed = record q {
      items = set q.items q.tail item;
      tail = (q.tail + 1) % q.capacity;
      count = q.count + 1;
    }

-- One connection, then the others.
Admits-more :
    (d d' : Door) (item : Item) (calls : List Outcome) (items : List Item)
    → IsValid d.queue
    → ((next : Door)
        → next ≡ take_connection item calls d
        → IsValid next.queue
        → Admits next items d')
    → Admits d (item ∷ items) d'
unfolding take_connection
Admits-more d d' item calls items v later = elim (push_cases d.queue item v) [
  | inl (e, z) ↦
      let next = queue_or_refuse item calls (count_connection d) (false, d.queue) in
      let s = later next (ap (queue_or_refuse item calls (count_connection d)) (sym e)) v in
      record {
        refused = (item, (conn_send_plain_busy (plain item calls)).1.outgoing) ∷ s.refused;
        queues =
            s.queues
            ∙ ap (λ (n : ℕ). contents d.queue ++ take n items) z
            ∙ ap (λ (n : ℕ). contents d.queue ++ take n (item ∷ items)) (sym z);
        refuses = s.refuses ∙ append_assoc d.turned_away _ s.refused;
        the_rest =
            ap (λ xs. item ∷ xs) (s.the_rest ∙ ap (λ (n : ℕ). drop n items) z)
            ∙ ap (λ (n : ℕ). drop n (item ∷ items)) (sym z);
        counts = s.counts ∙ omega arith;
        valid = s.valid;
      }
  | inr (q, e, z, c, v') ↦
      let next = queue_or_refuse item calls (count_connection d) (true, q) in
      let s = later next (ap (queue_or_refuse item calls (count_connection d)) (sym e)) v' in
      record {
        refused = s.refused;
        queues =
            s.queues
            ∙ ap (λ xs. xs ++ take (room q) items) c
            ∙ append_assoc (contents d.queue) (item ∷ []) (take (room q) items)
            ∙ ap (λ (n : ℕ). contents d.queue ++ take n (item ∷ items)) (sym z);
        refuses = s.refuses;
        the_rest = s.the_rest ∙ ap (λ (n : ℕ). drop n (item ∷ items)) (sym z);
        counts = s.counts ∙ omega arith;
        valid = s.valid;
      }
]

at_door :
    (rs : List Round) (d : Door)
    → IsValid d.queue
    → (a : Arrival)
    → ((next : Door) → IsValid next.queue → Admits next (arrived rs) (accept_loop rs next))
    → Admits d
        (elim a [
          | nothing ↦ arrived rs
          | fails ends ↦ elim ends [ true ↦ [] | false ↦ arrived rs ]
          | arrives item calls ↦ item ∷ arrived rs
        ])
        (elim a [
          | nothing ↦ accept_loop rs d
          | fails ends ↦ elim ends [ true ↦ d | false ↦ accept_loop rs d ]
          | arrives item calls ↦ accept_loop rs (take_connection item calls d)
        ])
at_door rs d v nothing later = later d v
at_door rs d v (fails true) later = nobody_came d v
at_door rs d v (fails false) later = later d v
at_door rs d v (arrives item calls) later =
    Admits-more d (accept_loop rs (take_connection item calls d)) item calls (arrived rs) v
      (λ next e v'. subst (λ x. Admits next (arrived rs) (accept_loop rs x)) e (later next v'))

-- Every connection that the loop accepts is queued or turned away, never both: as many as there are
-- places are queued, in the order in which they came, and exactly those behind them are refused; the
-- statistics count them all. Nothing is taken off the queue meanwhile, and the queue is valid.
pub accept_loop-Admits :
    (rs : List Round) (d : Door) → IsValid d.queue → Admits d (arrived rs) (accept_loop rs d)
unfolding accept_loop
accept_loop-Admits [] d v = nobody_came d v
accept_loop-Admits (r ∷ rs) d v = elim (Bool-cases (not r.running || not r.listening)) [
  | inl t ↦ rw (t, arrived, accept_loop) (nobody_came d v)
  | inr t ↦ rw (t, arrived, accept_loop) (at_door rs d v r.arrival (accept_loop-Admits rs))
]
