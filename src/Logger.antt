-- ===== src/Logger.antt =====
-- Project_3/Project_3/src/common/logger.c: the queue of log lines, the thread that writes them, and the ring of the
-- lines that were written last. A call holds `lock` while it changes the queue; the thread gives it
-- up before it writes, and nobody else touches the file or the ring's entries then. So a run of the
-- threads is a sequence of calls and of rounds of the thread.
pub mod Recent
pub mod Refine
pub mod Runs
pub mod Drain
mod Tests
use distributed_software_upd.Prelude.{
  ℕ, zero, suc, ◌+◌, ◌-◌, ◌%◌, ◌^◌, min, Bool, true, false, ◌||◌, ◌&&◌, not, Option, none, some,
  List, [], ◌∷◌, ◌++◌, CString, codes, ltb, ◌==◌, if◌then◌else◌, get_or, set, replicate, copy_str,
  str_case_eq, is_empty, decimal, ℤ, pos, negsuc,
}

-- `log_level_t`
pub data LogLevel : Type 0 where
  log_debug log_info log_warn log_error : LogLevel

abbrev pub level_code : LogLevel → ℕ
level_code log_debug = 0
level_code log_info = 1
level_code log_warn = 2
level_code log_error = 3

abbrev pub level_text : LogLevel → CString
level_text log_debug = codes "DEBUG"
level_text log_info = codes "INFO "
level_text log_warn = codes "WARN "
level_text log_error = codes "ERROR"

pub log_level_from_string : Option CString → LogLevel
log_level_from_string none = log_info
log_level_from_string (some s) =
    if str_case_eq s (codes "DEBUG")
    then log_debug
    else if str_case_eq s (codes "WARN") || str_case_eq s (codes "WARNING")
    then log_warn
    else if str_case_eq s (codes "ERROR")
    then log_error
    else log_info

abbrev pub queue_cap : ℕ
queue_cap = 4096

abbrev pub ring_size : ℕ
ring_size = 64

abbrev pub line_max : ℕ
line_max = 512

-- The lines that were written last: `ring`, `ring_start` and `ring_count`.
pub record Ring : Type 0 where
  pub lines : List CString
  pub start : ℕ
  pub count : ℕ

unfoldable pub ring_add : Ring → CString → Ring
ring_add r line =
    if r.count == ring_size
    then record r {
      lines = set r.lines r.start (copy_str line_max line);
      start = (r.start + 1) % ring_size;
    }
    else record r {
      lines = set r.lines ((r.start + r.count) % ring_size) (copy_str line_max line);
      count = r.count + 1;
    }

-- `logger_state_t`, without the thread, the locks and the condition variable: `written` are the lines
-- that `fp` was given, `console` those that `log_msg` gave `stderr` itself.
pub record Logger : Type 0 where
  pub queue : List CString
  pub head : ℕ
  pub tail : ℕ
  pub count : ℕ
  pub stop : Bool
  pub dropped : ℕ
  pub ring : Ring
  pub owns_file : Bool
  pub started : Bool
  pub min_level : LogLevel
  pub written : List CString
  pub console : List CString

-- What `memset` leaves.
abbrev pub zero_logger : Logger
zero_logger = record {
  queue = replicate queue_cap [];
  head = 0;
  tail = 0;
  count = 0;
  stop = false;
  dropped = 0;
  ring = record { lines = replicate ring_size []; start = 0; count = 0 };
  owns_file = false;
  started = false;
  min_level = log_debug;
  written = [];
  console = [];
}

-- Whether the file opens and the thread is created. The flag is `true` for the return of 0.
unfoldable pub logger_start : CString → LogLevel → Bool → Bool → Bool × Logger
logger_start path min_level opens creates =
    let owns = not (is_empty path) && opens in
    (creates, record zero_logger { owns_file = owns; started = creates; min_level = min_level })

unfoldable pub write_line : Logger → CString → Logger
unfolding ring_add
write_line l line = record l { written = l.written ++ line ∷ []; ring = ring_add l.ring line }

abbrev pub overflow_line : ℕ → CString
overflow_line dropped =
    copy_str line_max
      (codes "logger queue overflow: dropped " ++ (decimal dropped ++ codes " log lines"))

-- A round of the thread's loop. `waits`: it stays in `pthread_cond_wait`.
pub data Turn : Type 0 where
  waits : Turn
  exits : Turn
  goes_on : Logger → Turn

abbrev pub take_line : Logger → Logger
take_line l = record l { head = (l.head + 1) % queue_cap; count = l.count - 1; dropped = 0 }

abbrev pub warn_dropped : ℕ → Logger → Logger
warn_dropped dropped l = if ltb 0 dropped then write_line l (overflow_line dropped) else l

unfoldable pub logger_turn : Logger → Turn
unfolding write_line
logger_turn l =
    if l.count == 0
    then (if l.stop then exits else waits)
    else goes_on (
        write_line (warn_dropped l.dropped (take_line l))
          (copy_str line_max (get_or l.queue l.head [])))

-- `stamp` is the time of the call, `message` what `vsnprintf` gives.
abbrev pub dash_or : Option CString → CString
dash_or none = codes "-"
dash_or (some s) = s

pub log_line : CString → LogLevel → Option CString → Option CString → CString → CString
log_line stamp lvl tag info message = copy_str line_max (
    copy_str 64 stamp
    ++ (codes " ["
        ++ (level_text lvl
            ++ (codes "] ["
                ++ (dash_or tag
                    ++ (codes "] [" ++ (dash_or info ++ (codes "] " ++ copy_str 256 message))))))))

-- What `log_msg` does with its line.
unfoldable pub enqueue : Logger → CString → Logger
enqueue l line =
    if l.count == queue_cap then record l { dropped = (l.dropped + 1) % 2 ^ 64 } else record l {
      queue = set l.queue l.tail (copy_str line_max line);
      tail = (l.tail + 1) % queue_cap;
      count = l.count + 1;
    }

unfoldable pub log_msg : Logger → LogLevel → CString → Logger
unfolding enqueue
log_msg l lvl line =
    if ltb (level_code lvl) (level_code l.min_level)
    then l
    else if not l.started
    then record l { console = l.console ++ line ∷ [] }
    else enqueue l line

-- The thread's loop with the rounds that it is given; none where it does not end in them.
unfoldable pub logger_thread : ℕ → Logger → Option Logger
unfolding logger_turn
logger_thread zero l = none
logger_thread (suc fuel) l = elim (logger_turn l) [
  | waits ↦ none
  | exits ↦ some l
  | goes_on l' ↦ logger_thread fuel l'
]

abbrev pub ask_stop : Logger → Logger
ask_stop l = record l { stop = true }

-- What `memset` leaves behind the thread's end.
abbrev pub ended : Option Logger → Option Logger
ended none = none
ended (some l) = some (record zero_logger { written = l.written; console = l.console })

-- None where the thread does not end in the rounds that the lines take.
unfoldable pub logger_stop : Logger → Option Logger
unfolding logger_thread
logger_stop l = if not l.started then some l else ended (logger_thread (l.count + 1) (ask_stop l))

-- The lines that are copied from `start` on, beginning with the `i`-th.
unfoldable pub copy_lines : Ring → ℕ → ℕ → ℕ → List CString
copy_lines r start i zero = []
copy_lines r start i (suc n) =
    copy_str line_max (get_or r.lines ((start + i) % ring_size) []) ∷ copy_lines r start (i + 1) n

-- The number returned is the number of lines.
unfoldable pub logger_recent : Ring → ℤ → List CString
unfolding copy_lines
logger_recent r (negsuc max) = []
logger_recent r (pos zero) = []
logger_recent r (pos (suc max)) =
    let n = min r.count (suc max) in
    copy_lines r ((r.start + r.count - n + ring_size) % ring_size) 0 n
