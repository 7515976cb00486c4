-- ===== src/Logger/Refine.antt =====
-- The logger as a bounded waiting line of log lines, written in their order.
use distributed_software_upd.Prelude.{
  ℕ, suc, ◌+◌, ◌%◌, ◌^◌, ◌≤◌, ◌<◌, ◌≡◌, refl, sym, ap, ap₂, subst, append-nil, codes, decimal, ◌⊎◌,
  ◌∙◌, inl, inr, Bool, true, false, List, [], ◌∷◌, ◌++◌, CString, ◌==◌, ltb, if◌then◌else◌, get_or,
  set, length, length-set, copy_str, arith, Bool-cases, map, entries, length-entries, entries-pos,
  entries-set, round-push, round-pop,
}
use distributed_software_upd.Logger.{
  queue_cap, line_max, ring_add, Logger, write_line, overflow_line, Turn, waits, exits, goes_on,
  take_line, warn_dropped, logger_turn, enqueue,
}
use distributed_software_upd.Logger.Recent.{Holds, ring_add-Holds, AreCopies, copy_twice}

-- What the logger promises: lines that wait, the oldest first, the number of those that were dropped
-- since a line was last taken, and all that was written.
pub record Journal : Type 0 where
  pub waiting : List CString
  pub lost : ℕ
  pub output : List CString

abbrev pub admit : Journal → CString → Journal
admit j line =
    if length j.waiting == queue_cap
    then record j { lost = (j.lost + 1) % 2 ^ 64 }
    else record j { waiting = j.waiting ++ copy_str line_max line ∷ [] }

-- The warning that lines were dropped comes before the next line.
abbrev pub warned : ℕ → List CString
warned lost = if ltb 0 lost then overflow_line lost ∷ [] else []

abbrev serve_from : Journal → List CString → Journal
serve_from j [] = j
serve_from j (line ∷ rest) = record {
  waiting = rest;
  lost = 0;
  output = (j.output ++ warned j.lost) ++ copy_str line_max line ∷ [];
}

abbrev pub serve : Journal → Journal
serve j = serve_from j j.waiting

abbrev pub waiting : Logger → List CString
waiting l = entries [] l.queue queue_cap l.head l.count

abbrev pub journal : Logger → Journal
journal l = record { waiting = waiting l; lost = l.dropped; output = l.written }

pub record IsValid (l : Logger) : Type 0 where
  pub storage : queue_cap ≤ length l.queue
  pub head_in : l.head < queue_cap
  pub count_in : l.count ≤ queue_cap
  pub tail_at : l.tail ≡ (l.head + l.count) % queue_cap
  pub held : Holds l.written l.ring
  pub copies : AreCopies l.written

length-waiting : (l : Logger) → length (waiting l) ≡ l.count
length-waiting l = length-entries [] l.queue queue_cap l.head l.count

pub enqueue-IsValid : {l : Logger} (line : CString) → IsValid l → IsValid (enqueue l line)
unfolding enqueue
enqueue-IsValid {l} line v = elim (Bool-cases (l.count == queue_cap)) [
  | inl t ↦
      simp (t, if◌then◌else◌)
        (record {
          storage = v.storage;
          head_in = v.head_in;
          count_in = v.count_in;
          tail_at = v.tail_at;
          held = v.held;
          copies = v.copies;
        })
  | inr t ↦
      let c = v.count_in in
      simp (t, if◌then◌else◌)
        (record {
          storage = omega (arith, v.storage, length-set l.queue l.tail (copy_str line_max line));
          head_in = v.head_in;
          count_in = ground arith;
          tail_at =
              ap (λ (k : ℕ). (k + 1) % queue_cap) v.tail_at ∙ round-push queue_cap l.head l.count;
          held = v.held;
          copies = v.copies;
        })
]

map-append :
    (xs ys : List CString)
    → map (copy_str line_max) (xs ++ ys) ≡ map (copy_str line_max) xs ++ map (copy_str line_max) ys
map-append [] ys = refl
map-append (x ∷ xs) ys = ap (λ zs. copy_str line_max x ∷ zs) (map-append xs ys)

-- A line that is enqueued waits behind the others, or is counted as dropped where 4096 wait.
pub enqueue_refines :
    {l : Logger} (line : CString) → IsValid l → journal (enqueue l line) ≡ admit (journal l) line
unfolding enqueue
enqueue_refines {l} line v = elim (Bool-cases (l.count == queue_cap)) [
  | inl t ↦ simp (length-waiting l, t, if◌then◌else◌) refl
  | inr t ↦
      let c = v.count_in in
      let x = copy_str line_max line in
      simp (length-waiting l, t, if◌then◌else◌)
        (ap (λ w. record (journal l) { waiting = w })
          (ap (λ (k : ℕ). entries [] (set l.queue l.tail x) queue_cap l.head k) {x = l.count + 1}
              {y = suc l.count} (omega arith)
            ∙ entries-set [] l.queue queue_cap l.head l.count l.tail x v.head_in (ground arith)
                v.storage v.tail_at))
]

write_line-IsValid :
    {l : Logger} (line : CString)
    → copy_str line_max line ≡ line
    → IsValid l
    → IsValid (write_line l line)
unfolding write_line
write_line-IsValid {l} line c v = record {
  storage = v.storage;
  head_in = v.head_in;
  count_in = v.count_in;
  tail_at = v.tail_at;
  held =
      subst (λ s. Holds (l.written ++ s ∷ []) (ring_add l.ring line)) c
        (ring_add-Holds l.written l.ring line v.held);
  copies = map-append l.written (line ∷ []) ∙ ap₂ (λ xs (y : CString). xs ++ y ∷ []) v.copies c;
}

warn_dropped-IsValid : {l : Logger} (lost : ℕ) → IsValid l → IsValid (warn_dropped lost l)
warn_dropped-IsValid {l} lost v = elim (Bool-cases (ltb 0 lost)) [
  | inl t ↦
      rw (t, if◌then◌else◌)
        (write_line-IsValid (overflow_line lost)
          (copy_twice
            (codes "logger queue overflow: dropped " ++ (decimal lost ++ codes " log lines")))
          v)
  | inr t ↦ rw (t, if◌then◌else◌) v
]

warn_dropped-journal :
    (l : Logger) (lost : ℕ)
    → journal (warn_dropped lost l) ≡ record (journal l) { output = l.written ++ warned lost }
unfolding write_line
warn_dropped-journal l lost = elim (Bool-cases (ltb 0 lost)) [
  | inl t ↦ rw (t, if◌then◌else◌) refl
  | inr t ↦ rw (t, if◌then◌else◌, append-nil) refl
]

take_line-IsValid : {l : Logger} → 0 < l.count → IsValid l → IsValid (take_line l)
take_line-IsValid {l} p v =
    let c = v.count_in in
    record {
      storage = v.storage;
      head_in = omega arith;
      count_in = omega (arith, c);
      tail_at = v.tail_at ∙ sym (round-pop queue_cap l.head l.count p);
      held = v.held;
      copies = v.copies;
    }

-- The logger after a round of its thread.
abbrev pub after : Logger → Turn → Logger
after l waits = l
after l exits = l
after l (goes_on l') = l'

-- The ways a round can go.
pub logger_turn-cases :
    (l : Logger)
    → ((l.count ≡ 0) × (logger_turn l ≡ (if l.stop then exits else waits)))
      ⊎ ((0 < l.count)
          × (logger_turn l
              ≡ goes_on (
                  write_line
                    (warn_dropped l.dropped (take_line l))
                    (copy_str line_max (get_or l.queue l.head [])))))
unfolding logger_turn
logger_turn-cases l = elim (Bool-cases (l.count == 0)) [
  | inl t ↦ inl (ground arith, rw (t, if◌then◌else◌) refl)
  | inr t ↦ inr (ground arith, rw (t, if◌then◌else◌) refl)
]

pub after_idle : (l : Logger) (b : Bool) → after l (if b then exits else waits) ≡ l
after_idle l true = refl
after_idle l false = refl

pub logger_turn-IsValid : {l : Logger} → IsValid l → IsValid (after l (logger_turn l))
logger_turn-IsValid {l} v = elim (logger_turn-cases l) [
  | inl (z, e) ↦ subst IsValid (sym (ap (after l) e ∙ after_idle l l.stop)) v
  | inr (p, e) ↦
      subst (λ t. IsValid (after l t)) (sym e)
        (write_line-IsValid (copy_str line_max (get_or l.queue l.head []))
          (copy_twice (get_or l.queue l.head []))
          (warn_dropped-IsValid l.dropped (take_line-IsValid p v)))
]

-- A round of the thread writes the line that has waited longest, behind a warning where lines were
-- dropped; it does nothing where none waits.
pub logger_turn_refines :
    {l : Logger} → IsValid l → journal (after l (logger_turn l)) ≡ serve (journal l)
unfolding write_line
logger_turn_refines {l} v = elim (logger_turn-cases l) [
  | inl (z, e) ↦
      ap journal (ap (after l) e ∙ after_idle l l.stop)
      ∙ sym (ap (λ (k : ℕ). serve_from (journal l) (entries [] l.queue queue_cap l.head k)) z)
  | inr (p, e) ↦
      ap (λ t. journal (after l t)) e
      ∙ ap (put (copy_str line_max (get_or l.queue l.head [])))
          (warn_dropped-journal (take_line l) l.dropped)
      ∙ ap (serve_from (journal l))
          (sym (entries-pos [] l.queue queue_cap l.head l.count v.head_in p))
]
  where
    put : CString → Journal → Journal
    put line j = record j { output = j.output ++ line ∷ [] }
