-- ===== src/ActiveIds.antt =====
-- Project_3/Project_3/src/server/worker.c, the ids of the clients that have a session: the array
-- `g_active_client_ids`, in which the empty string is a free slot. Each function is one critical
-- section under `g_active_id_lock`.
pub mod Table
pub mod Laws
mod Tests
use distributed_software_upd.Prelude.{
  ℕ, zero, suc, ◌+◌, true, false, Option, none, some, List, [], ◌∷◌, CString, replicate,
  if◌then◌else◌, str_eq, is_empty, copy_str,
}

abbrev pub Slots : Type 0
Slots = List CString

abbrev pub slot_count : ℕ
slot_count = 128

abbrev pub no_sessions : Slots
no_sessions = replicate slot_count []

-- What the loop of `reserve_active_client_id` finds: the id itself, or the first free slot.
pub data Search : Type 0 where
  held : Search
  free : Option ℕ → Search

abbrev first_free : Option ℕ → ℕ → Option ℕ
first_free none i = some i
first_free (some j) i = some j

-- From slot `i` on, with the free slot that was seen before.
unfoldable pub search_slots : CString → Slots → ℕ → Option ℕ → Search
search_slots id [] i seen = free seen
search_slots id (s ∷ slots) i seen = elim (is_empty s) [
  | true ↦ search_slots id slots (suc i) (first_free seen i)
  | false ↦ elim (str_eq s id) [ true ↦ held | false ↦ search_slots id slots (suc i) seen ]
]

abbrev pub set_slot : Slots → ℕ → CString → Slots
set_slot [] i id = []
set_slot (s ∷ slots) zero id = id ∷ slots
set_slot (s ∷ slots) (suc i) id = s ∷ set_slot slots i id

-- The returns 0 (with the slots after it), 1 and -1.
pub data Reserved : Type 0 where
  reserved : Slots → Reserved
  duplicate : Reserved
  refused : Reserved

abbrev pub reserve_found : Slots → CString → Search → Reserved
reserve_found slots id held = duplicate
reserve_found slots id (free none) = refused
reserve_found slots id (free (some i)) = reserved (set_slot slots i (copy_str 64 id))

unfoldable pub reserve_active_client_id : Slots → CString → Reserved
unfolding search_slots
reserve_active_client_id slots id =
    if is_empty id then refused else reserve_found slots id (search_slots id slots 0 none)

-- The first slot that holds the id is cleared.
unfoldable pub clear_first : CString → Slots → Slots
clear_first id [] = []
clear_first id (s ∷ slots) = elim (str_eq s id) [
  | true ↦ [] ∷ slots
  | false ↦ s ∷ clear_first id slots
]

unfoldable pub release_active_client_id : Slots → CString → Slots
unfolding clear_first
release_active_client_id slots id = if is_empty id then slots else clear_first id slots
