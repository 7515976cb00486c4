-- ===== src/Logger/Drain.antt =====
-- `logger_stop` waits until the queue is written.
use distributed_software_upd.Prelude.{
  ℕ, zero, suc, ◌+◌, ◌≡◌, refl, sym, ap, subst, ◌∙◌, inl, inr, Bool, true, not, some, List, [], ◌∷◌,
  ◌++◌, CString, ltb, if◌then◌else◌, copy_str, arith, Bool-cases, get_or, entries, entries-pos,
}
use distributed_software_upd.Logger.Runs.{
  Event, run, follow, empty, run_refines, logger_start-IsRunning,
}
use distributed_software_upd.Logger.{
  LogLevel, logger_start, queue_cap, line_max, Logger, waits, exits, zero_logger, take_line,
  warn_dropped, write_line, logger_thread, ask_stop, ended, logger_stop,
}
use distributed_software_upd.Logger.Refine.{
  Journal, warned, serve, journal, IsValid, after, logger_turn-cases, logger_turn-IsValid,
  logger_turn_refines,
}

-- All that waits is written behind what was written.
abbrev pub flushed : List CString → ℕ → List CString → List CString
flushed output lost [] = output
flushed output lost (line ∷ rest) =
    flushed ((output ++ warned lost) ++ copy_str line_max line ∷ []) 0 rest

abbrev pub flush_journal : Journal → List CString
flush_journal j = flushed j.output j.lost j.waiting

-- To serve the first line changes nothing of what a flush gives.
flush-serve :
    (j : Journal) (line : CString) (rest : List CString)
    → j.waiting ≡ line ∷ rest
    → flush_journal (serve j) ≡ flush_journal j
flush-serve j line rest e = rw e refl

warn_dropped-count : (l : Logger) (lost : ℕ) → (warn_dropped lost l).count ≡ l.count
unfolding write_line
warn_dropped-count l lost = elim (Bool-cases (ltb 0 lost)) [
  | inl t ↦ rw (t, if◌then◌else◌) refl
  | inr t ↦ rw (t, if◌then◌else◌) refl
]

warn_dropped-stop : (l : Logger) (lost : ℕ) → (warn_dropped lost l).stop ≡ l.stop
unfolding write_line
warn_dropped-stop l lost = elim (Bool-cases (ltb 0 lost)) [
  | inl t ↦ rw (t, if◌then◌else◌) refl
  | inr t ↦ rw (t, if◌then◌else◌) refl
]

-- The thread ends, and has written all that waited.
drain :
    (n : ℕ) (l : Logger)
    → IsValid l
    → l.stop ≡ true
    → l.count ≡ n
    → (l' : Logger) × (logger_thread (suc n) l ≡ some l') × (l'.written ≡ flush_journal (journal l))
unfolding logger_thread write_line
drain zero l v s c = elim (logger_turn-cases l) [
  | inr (p, e) ↦ absurd (omega (arith, p, c))
  | inl (z, e) ↦ (
    l,
    rw (e ∙ ap (λ b. if b then exits else waits) s, logger_thread) refl,
    sym (ap (λ (k : ℕ). flushed l.written l.dropped (entries [] l.queue queue_cap l.head k)) c),
  )
]
drain (suc n) l v s c = elim (logger_turn-cases l) [
  | inl (z, e) ↦ absurd (omega (arith, z, c))
  | inr (p, e) ↦
      let line = get_or l.queue l.head [] in
      let next = write_line (warn_dropped l.dropped (take_line l)) (copy_str line_max line) in
      let valid : IsValid next = subst (λ t. IsValid (after l t)) e (logger_turn-IsValid v) in
      let same : journal next ≡ serve (journal l) =
        ap (λ t. journal (after l t)) (sym e) ∙ logger_turn_refines v in
      let left : next.count ≡ n = warn_dropped-count (take_line l) l.dropped ∙ omega (arith, c) in
      let asked : next.stop ≡ true = warn_dropped-stop (take_line l) l.dropped ∙ s in
      let (l', q, w) = drain n next valid asked left in
      (
        l',
        rw (e, logger_thread) q,
        w
            ∙ ap flush_journal same
            ∙ flush-serve (journal l) line _
                (entries-pos [] l.queue queue_cap l.head l.count v.head_in p),
      )
]

stop_started :
    (l l' : Logger)
    → l.started ≡ true
    → logger_thread (l.count + 1) (ask_stop l) ≡ some l'
    → logger_stop l ≡ some (record zero_logger { written = l'.written; console = l'.console })
unfolding logger_stop
stop_started l l' s q =
    ap (λ b. if not b then some l else ended (logger_thread (l.count + 1) (ask_stop l))) s
    ∙ ap ended q

-- `logger_stop` loses no line: after any run of the threads from `logger_start` on it returns, its
-- thread having ended, and what was written is what the journal of the run had written, then the
-- lines that waited in their order, behind a warning where lines had been dropped.
pub logger_stop-run :
    (path : CString) (least : LogLevel) (opens : Bool) (es : List Event)
    → let j = follow least empty es in
      (l : Logger) × (logger_stop (run (logger_start path least opens true).1 es) ≡ some l)
      × (l.written ≡ flush_journal j)
unfolding logger_stop logger_start
logger_stop-run path least opens es =
    let started = (logger_start path least opens true).1 in
    let (same, r) = run_refines started es (logger_start-IsRunning path least opens) in
    let l = run started es in
    let v = r.valid in
    let (l', q, w) =
      drain l.count (ask_stop l)
        (record {
          storage = v.storage;
          head_in = v.head_in;
          count_in = v.count_in;
          tail_at = v.tail_at;
          held = v.held;
          copies = v.copies;
        })
        refl refl in
    (
      record zero_logger { written = l'.written; console = l'.console },
      stop_started l l' r.is_started
          (ap (λ (k : ℕ). logger_thread k (ask_stop l)) {y = suc l.count} (omega arith) ∙ q),
      w ∙ ap flush_journal same,
    )
