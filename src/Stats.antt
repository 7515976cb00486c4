-- ===== src/Stats.antt =====
-- Project_3/Project_3/src/common/stats.c: the server's counters, and its table of active clients. Each function is one
-- critical section under `active_lock`. The two parallel arrays of keys and labels are one list of
-- rows: the entries below `active_client_count`, in order.
pub mod Table
pub mod Invariant
pub mod Laws
mod Tests
use distributed_software_upd.Prelude.{
  ℕ, zero, suc, ◌+◌, ◌-◌, ◌<◌, Bool, true, false, Option, none, some, List, [], ◌∷◌, ◌++◌, CString,
  ltb, if◌then◌else◌, length, take, map, str_eq, is_empty, copy_str,
}

pub record Row : Type 0 where
  pub key : CString
  pub label : CString

-- `stats_t`, without its lock. The counters are atomic, and do not wrap.
pub record Stats : Type 0 where
  pub connections : ℕ
  pub active_transfers : ℕ
  pub updates_served : ℕ
  pub uptodate_responses : ℕ
  pub auth_failures : ℕ
  pub errors : ℕ
  pub bytes_sent : ℕ
  pub busy_workers : ℕ
  pub max_workers : ℕ
  pub active : List Row

abbrev pub active_client_max : ℕ
active_client_max = 128

abbrev pub client_info_len : ℕ
client_info_len = 128

abbrev pub active_client_label : ℕ
active_client_label = 160

pub stats_init : ℕ → Stats
stats_init workers = record {
  connections = 0;
  active_transfers = 0;
  updates_served = 0;
  uptodate_responses = 0;
  auth_failures = 0;
  errors = 0;
  bytes_sent = 0;
  busy_workers = 0;
  max_workers = workers;
  active = [];
}

-- The index of the row with a key.
unfoldable pub find_active_key : List Row → CString → Option ℕ
find_active_key [] key = none
find_active_key (r ∷ rows) key =
    let rest = find_active_key rows key in
    if str_eq r.key key then some 0 else elim rest [ none ↦ none | some i ↦ some (suc i) ]

-- `snprintf` of the label, or of the key where there is no label.
abbrev pub shown : CString → CString → CString
shown key label = copy_str active_client_label (if is_empty label then key else label)

abbrev pub set_label : List Row → ℕ → CString → List Row
set_label [] i l = []
set_label (r ∷ rows) zero l = record r { label = l } ∷ rows
set_label (r ∷ rows) (suc i) l = r ∷ set_label rows i l

-- The loop that moves the rows behind index `i` one place to the front.
abbrev pub remove_at : List Row → ℕ → List Row
remove_at [] i = []
remove_at (r ∷ rows) zero = rows
remove_at (r ∷ rows) (suc i) = r ∷ remove_at rows i

-- A new row, where there is room.
abbrev pub append_row : List Row → CString → CString → List Row
append_row rows key label =
    if ltb (length rows) active_client_max
    then rows ++ record { key = copy_str client_info_len key; label = shown key label } ∷ []
    else rows

unfoldable pub add_row : List Row → CString → CString → List Row
unfolding find_active_key
add_row rows key label = elim (find_active_key rows key) [
  | none ↦ append_row rows key label
  | some i ↦ set_label rows i (shown key label)
]

unfoldable pub update_row : List Row → CString → CString → List Row
unfolding find_active_key
update_row rows key label = elim (find_active_key rows key) [
  | none ↦ rows
  | some i ↦ set_label rows i (shown key label)
]

unfoldable pub remove_row : List Row → CString → List Row
unfolding find_active_key
remove_row rows key = elim (find_active_key rows key) [ none ↦ rows | some i ↦ remove_at rows i ]

-- Each of the three does nothing for the empty key. An empty label stands for NULL too.
pub stats_active_client_add : Stats → CString → CString → Stats
stats_active_client_add s key label =
    if is_empty key then s else record s { active = add_row s.active key label }

pub stats_active_client_update : Stats → CString → CString → Stats
stats_active_client_update s key label =
    if is_empty key then s else record s { active = update_row s.active key label }

pub stats_active_client_remove : Stats → CString → Stats
stats_active_client_remove s key =
    if is_empty key then s else record s { active = remove_row s.active key }

-- The labels copied out, at most `most` of them, and the number of active clients.
pub stats_active_client_snapshot : Stats → ℕ → List CString × ℕ
stats_active_client_snapshot s most =
    if ltb 0 most then (map (λ r. r.label) (take most s.active), length s.active) else ([], 0)
