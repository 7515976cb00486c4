-- ===== src/Worker/Laws.antt =====
-- What a worker owes to the queue and to the other sessions.
use distributed_software_upd.Prelude.{
  ◌≡◌, refl, sym, ap, subst, ◌∙◌, inl, inr, Bool, ◌&&◌, not, List, [], ◌∷◌, ◌++◌, append_assoc,
  append-nil, if◌then◌else◌, Bool-cases, entries-pos,
}
use distributed_software_upd.ThreadPool.{
  Item, Queue, zero_item, Popped, waits, stopped, got, taken, pop,
}
use distributed_software_upd.ThreadPool.Invariant.{IsValid, after, pop-cases, pop-IsValid}
use distributed_software_upd.ThreadPool.Refine.{contents}
use distributed_software_upd.ActiveIds.Table.{Distinct}
use distributed_software_upd.Session.Laws.{handle_client_session-slots}
use distributed_software_upd.Worker.{
  Server, Visit, Pass, blocks, stops, continues, attend_client, on_popped, worker_pass, worker_loop,
}

-- From `w` to `w'`, the connections that left the queue are those that were closed, in their order,
-- each once; and the ids in use are what they were.
pub record Settles (w w' : Server) : Type 0 where
  pub handled : List Item
  pub closes : w'.closed ≡ w.closed ++ handled
  pub leaves : contents w.queue ≡ handled ++ contents w'.queue
  pub gives_back : w'.slots ≡ w.slots
  pub valid : IsValid w'.queue

settled_self : (w : Server) → IsValid w.queue → Settles w w
settled_self w v = record {
  handled = [];
  closes = sym (append-nil w.closed);
  leaves = refl;
  gives_back = refl;
  valid = v;
}

Settles-trans : (a b c : Server) → Settles a b → Settles b c → Settles a c
Settles-trans a b c s t = record {
  handled = s.handled ++ t.handled;
  closes =
      t.closes ∙ ap (λ xs. xs ++ t.handled) s.closes ∙ append_assoc a.closed s.handled t.handled;
  leaves =
      s.leaves
      ∙ ap (λ xs. s.handled ++ xs) t.leaves
      ∙ sym (append_assoc s.handled t.handled (contents c.queue));
  gives_back = t.gives_back ∙ s.gives_back;
  valid = t.valid;
}

-- A pop hands out the oldest connection.
pop-contents :
    (q q' : Queue) (item : Item)
    → IsValid q
    → pop q ≡ got item q'
    → (contents q ≡ item ∷ contents q') × IsValid q'
pop-contents q q' item v e = elim (pop-cases q) [
  | inl (_, _, h) ↦ absurd (cc)
  | inr (inl (_, _, h)) ↦ absurd (cc)
  | inr (inr (p, h)) ↦
      let same : taken q ≡ got item q' = sym h ∙ e in
      (
        entries-pos zero_item q.items q.capacity q.head q.count v.head_in p ∙ ap front same,
        subst (λ r. IsValid (after q r)) e (pop-IsValid v),
      )
]
  where
    front : Popped → List Item
    front waits = []
    front stopped = []
    front (got i r) = i ∷ contents r

attend_client-closed :
    (enable_tls : Bool) (v : Visit) (item : Item) (w : Server)
    → Distinct w.slots
    → ((attend_client enable_tls v item w).closed ≡ w.closed ++ item ∷ [])
      × ((attend_client enable_tls v item w).queue ≡ w.queue)
      × ((attend_client enable_tls v item w).slots ≡ w.slots)
unfolding attend_client
attend_client-closed enable_tls v item w d = elim (Bool-cases (enable_tls && not v.handshake)) [
  | inl t ↦ rw (t, if◌then◌else◌) (refl, refl, refl)
  | inr t ↦
      rw (t, if◌then◌else◌)
        (
          refl,
          refl,
          handle_client_session-slots (record v.env { client_info = item.client_info }) w.slots _ d,
        )
]

attend_client-Settles :
    (enable_tls : Bool) (v : Visit) (w : Server) (item : Item) (q : Queue)
    → IsValid w.queue
    → Distinct w.slots
    → pop w.queue ≡ got item q
    → Settles w (attend_client enable_tls v item (record w { queue = q }))
attend_client-Settles enable_tls v w item q valid d e =
    let (front, v') = pop-contents w.queue q item valid e in
    let (c, same, ids) = attend_client-closed enable_tls v item (record w { queue = q }) d in
    record {
      handled = item ∷ [];
      closes = c;
      leaves = front ∙ ap (λ r. item ∷ contents r) (sym same);
      gives_back = ids;
      valid = subst IsValid (sym same) v';
    }

-- Where a pass leaves the server.
abbrev reached : Server → Pass → Server
reached w blocks = w
reached w (stops w') = w'
reached w (continues w') = w'

on_popped-Settles :
    (enable_tls : Bool) (v : Visit) (w : Server) (r : Popped)
    → IsValid w.queue
    → Distinct w.slots
    → pop w.queue ≡ r
    → Settles w (reached w (on_popped enable_tls v w r))
on_popped-Settles enable_tls v w waits valid d e = settled_self w valid
on_popped-Settles enable_tls v w stopped valid d e = settled_self w valid
on_popped-Settles enable_tls v w (got item q) valid d e = elim (Bool-cases v.still_running) [
  | inl t ↦ simp (t, if◌then◌else◌) (attend_client-Settles enable_tls v w item q valid d e)
  | inr t ↦
      let (front, v') = pop-contents w.queue q item valid e in
      simp (t, if◌then◌else◌)
        (record {
          handled = item ∷ [];
          closes = refl;
          leaves = front;
          gives_back = refl;
          valid = v';
        })
]

worker_pass-Settles :
    (enable_tls : Bool) (v : Visit) (w : Server)
    → IsValid w.queue
    → Distinct w.slots
    → Settles w (reached w (worker_pass enable_tls v w))
unfolding worker_pass
worker_pass-Settles enable_tls v w valid d = elim (Bool-cases v.running) [
  | inr t ↦ simp (t, if◌then◌else◌) (settled_self w valid)
  | inl t ↦ simp (t, if◌then◌else◌) (on_popped-Settles enable_tls v w (pop w.queue) valid d refl)
]

pass_cases :
    (enable_tls : Bool) (vs : List Visit) (w : Server) (p : Pass)
    → Settles w (reached w p)
    → ((next : Server) → Settles w next → Settles next (worker_loop enable_tls vs next))
    → Settles w
        (elim p [ blocks ↦ w | stops w' ↦ w' | continues w' ↦ worker_loop enable_tls vs w' ])
pass_cases enable_tls vs w blocks s later = s
pass_cases enable_tls vs w (stops w') s later = s
pass_cases enable_tls vs w (continues w') s later =
    Settles-trans w w' (worker_loop enable_tls vs w') s (later w' s)

-- A worker loses no connection and no id: whatever its passes meet, the connections that left the
-- queue are exactly those that were closed, in the queue's order, each once; and after the last
-- session the ids in use are those from before the first. The queue is valid, and no id stands in
-- two slots.
pub worker_loop-Settles :
    (enable_tls : Bool) (vs : List Visit) (w : Server)
    → IsValid w.queue
    → Distinct w.slots
    → Settles w (worker_loop enable_tls vs w)
unfolding worker_loop
worker_loop-Settles enable_tls [] w valid d = settled_self w valid
worker_loop-Settles enable_tls (v ∷ vs) w valid d =
    pass_cases enable_tls vs w (worker_pass enable_tls v w)
      (worker_pass-Settles enable_tls v w valid d)
      (λ next s.
        worker_loop-Settles enable_tls vs next s.valid (subst Distinct (sym s.gives_back) d))
