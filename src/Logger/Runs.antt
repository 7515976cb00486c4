-- ===== src/Logger/Runs.antt =====
-- Runs of the threads that log and of the one that writes.
use distributed_software_upd.Prelude.{
  ℕ, min, ◌≡◌, refl, sym, ap, subst, ◌∙◌, inl, inr, Bool, true, not, List, [], ◌∷◌, ◌++◌, CString,
  ltb, if◌then◌else◌, ◌==◌, length-replicate, arith, Bool-cases, pos,
}
use distributed_software_upd.Logger.{
  LogLevel, level_code, queue_cap, ring_size, Logger, logger_start, logger_turn, enqueue, log_msg,
  logger_recent, warn_dropped, write_line, take_line,
}
use distributed_software_upd.Logger.Recent.{newest, logger_recent-newest}
use distributed_software_upd.Logger.Refine.{
  Journal, admit, serve, journal, IsValid, enqueue-IsValid, enqueue_refines, after,
  logger_turn-IsValid, logger_turn_refines, logger_turn-cases, after_idle,
}

-- A call of `log_msg`, or a round of the thread.
pub data Event : Type 0 where
  logs : LogLevel → CString → Event
  turns : Event

abbrev pub step : Logger → Event → Logger
step l (logs lvl line) = log_msg l lvl line
step l turns = after l (logger_turn l)

abbrev pub run : Logger → List Event → Logger
run l [] = l
run l (e ∷ es) = run (step l e) es

abbrev pub note : LogLevel → Journal → Event → Journal
note least j (logs lvl line) = if ltb (level_code lvl) (level_code least) then j else admit j line
note least j turns = serve j

abbrev pub follow : LogLevel → Journal → List Event → Journal
follow least j [] = j
follow least j (e ∷ es) = follow least (note least j e) es

-- Nothing was logged.
abbrev pub empty : Journal
empty = record { waiting = []; lost = 0; output = [] }

-- A logger that runs at a level.
pub record IsRunning (least : LogLevel) (l : Logger) : Type 0 where
  pub valid : IsValid l
  pub is_started : l.started ≡ true
  pub level : l.min_level ≡ least

enqueue-IsRunning :
    {least : LogLevel} {l : Logger} (line : CString)
    → IsRunning least l
    → IsRunning least (enqueue l line)
unfolding enqueue
enqueue-IsRunning {least} {l} line r = record {
  valid = enqueue-IsValid line r.valid;
  is_started = elim (Bool-cases (l.count == queue_cap)) [
    | inl t ↦ simp (t, if◌then◌else◌) r.is_started
    | inr t ↦ simp (t, if◌then◌else◌) r.is_started
  ];
  level = elim (Bool-cases (l.count == queue_cap)) [
    | inl t ↦ simp (t, if◌then◌else◌) r.level
    | inr t ↦ simp (t, if◌then◌else◌) r.level
  ];
}

-- What a line and the warning before it leave alone.
warn_dropped-started : (l : Logger) (lost : ℕ) → (warn_dropped lost l).started ≡ l.started
unfolding write_line
warn_dropped-started l lost = elim (Bool-cases (ltb 0 lost)) [
  | inl t ↦ rw (t, if◌then◌else◌) refl
  | inr t ↦ rw (t, if◌then◌else◌) refl
]

warn_dropped-min_level : (l : Logger) (lost : ℕ) → (warn_dropped lost l).min_level ≡ l.min_level
unfolding write_line
warn_dropped-min_level l lost = elim (Bool-cases (ltb 0 lost)) [
  | inl t ↦ rw (t, if◌then◌else◌) refl
  | inr t ↦ rw (t, if◌then◌else◌) refl
]

logger_turn-IsRunning :
    {least : LogLevel} {l : Logger} → IsRunning least l → IsRunning least (after l (logger_turn l))
unfolding write_line
logger_turn-IsRunning {least} {l} r = elim (logger_turn-cases l) [
  | inl (z, e) ↦ subst (IsRunning least) (sym (ap (after l) e ∙ after_idle l l.stop)) r
  | inr (p, e) ↦ record {
    valid = logger_turn-IsValid r.valid;
    is_started =
        ap (λ t. (after l t).started) e
        ∙ warn_dropped-started (take_line l) l.dropped
        ∙ r.is_started;
    level =
        ap (λ t. (after l t).min_level) e
        ∙ warn_dropped-min_level (take_line l) l.dropped
        ∙ r.level;
  }
]

log_msg_running :
    {least : LogLevel} (l : Logger) (lvl : LogLevel) (line : CString)
    → IsRunning least l
    → log_msg l lvl line ≡ (if ltb (level_code lvl) (level_code least) then l else enqueue l line)
unfolding log_msg
log_msg_running l lvl line r =
    ap (at l.min_level) r.is_started ∙ ap (λ (k : LogLevel). at k true) r.level
  where
    at : LogLevel → Bool → Logger
    at k b =
        if ltb (level_code lvl) (level_code k)
        then l
        else if not b
        then record l { console = l.console ++ line ∷ [] }
        else enqueue l line

-- One event.
step-IsRunning :
    {least : LogLevel} (l : Logger) (e : Event) → IsRunning least l → IsRunning least (step l e)
step-IsRunning {least} l (logs lvl line) r =
    subst (IsRunning least) (sym (log_msg_running l lvl line r))
      (elim (Bool-cases (ltb (level_code lvl) (level_code least))) [
        | inl t ↦ rw (t, if◌then◌else◌) r
        | inr t ↦ rw (t, if◌then◌else◌) (enqueue-IsRunning line r)
      ])
step-IsRunning l turns r = logger_turn-IsRunning r

step_refines :
    {least : LogLevel} (l : Logger) (e : Event)
    → IsRunning least l
    → journal (step l e) ≡ note least (journal l) e
step_refines {least} l (logs lvl line) r =
    ap journal (log_msg_running l lvl line r)
    ∙ elim (Bool-cases (ltb (level_code lvl) (level_code least))) [
      | inl t ↦ rw (t, if◌then◌else◌) refl
      | inr t ↦ rw (t, if◌then◌else◌) (enqueue_refines line r.valid)
    ]
step_refines l turns r = logger_turn_refines r.valid

pub run_refines :
    {least : LogLevel} (l : Logger) (es : List Event)
    → IsRunning least l
    → (journal (run l es) ≡ follow least (journal l) es) × IsRunning least (run l es)
run_refines l [] r = (refl, r)
run_refines {least} l (e ∷ es) r =
    let (same, still) = run_refines (step l e) es (step-IsRunning l e r) in
    (same ∙ ap (λ j. follow least j es) (step_refines l e r), still)

pub logger_start-IsRunning :
    (path : CString) (least : LogLevel) (opens : Bool)
    → IsRunning least (logger_start path least opens true).1
unfolding logger_start
logger_start-IsRunning path least opens = record {
  valid = record {
    storage = omega (arith, length-replicate {A = CString} queue_cap []);
    head_in = omega arith;
    count_in = omega arith;
    tail_at = refl;
    held = record {
      room = omega (arith, length-replicate {A = CString} ring_size []);
      start_in = omega arith;
      counted = refl;
      same = refl;
    };
    copies = refl;
  };
  is_started = refl;
  level = refl;
}

-- From `logger_start` on, whatever lines the threads log and however the writing thread gets its
-- turns, the logger holds what the journal of these events holds: the lines that wait, in the order of
-- the calls, the count of those dropped, and all that was written. `logger_recent` gives the last of
-- the lines that were written, `max` or 64 of them.
pub logger_runs :
    (path : CString) (least : LogLevel) (opens : Bool) (es : List Event) (max : ℕ)
    → let l = run (logger_start path least opens true).1 es in
      let j = follow least empty es in
      (journal l ≡ j) × (logger_recent l.ring (pos max) ≡ newest (min max ring_size) j.output)
unfolding logger_start
logger_runs path least opens es max =
    let started = (logger_start path least opens true).1 in
    let (same, r) = run_refines started es (logger_start-IsRunning path least opens) in
    let v = r.valid in
    (
      same,
      logger_recent-newest (run started es).written (run started es).ring max v.held v.copies
          ∙ ap (λ (j : Journal). newest (min max ring_size) j.output) same,
    )
