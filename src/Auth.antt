-- ===== src/Auth.antt =====
-- Project_3/Project_3/src/common/auth.c: the registry of clients, a file of lines ID, ID:STATE or
-- ID=STATE. Its text is what is read of it, up to the end or a read error, which the code does not
-- tell apart.
pub mod Registry
pub mod Laws
pub mod Enabled
mod Tests
use distributed_software_upd.Prelude.{
  ℕ, ◌+◌, Bool, true, false, ◌||◌, Option, none, some, List, [], ◌∷◌, ◌++◌, CString, codes, leb,
  ltb, ◌==◌, if◌then◌else◌, length, str_eq, str_case_eq, is_empty, split_at, trim_text, copy_str,
  read_lines, cut_short,
}

pub data Status : Type 0 where
  ok : Status
  not_found : Status
  disabled : Status
  invalid_registry : Status

abbrev pub max_id_len : ℕ
max_id_len = 64

-- The rows of the array `seen`.
abbrev pub max_seen : ℕ
max_seen = 512

-- `none` is an invalid state; a line without a state enables its client.
unfoldable pub valid_registry_state : Option CString → Option Bool
valid_registry_state none = some true
valid_registry_state (some s) =
    if is_empty s
      || str_case_eq s (codes "enabled")
      || str_case_eq s (codes "allow")
      || str_eq s (codes "1")
    then some true
    else if str_case_eq s (codes "disabled") || str_case_eq s (codes "deny") || str_eq s (codes "0")
    then some false
    else none

-- The text before the separator, and the state behind it: the first `:`, else the first `=`.
unfoldable pub split_state : CString → CString × Option CString
split_state line = elim (split_at b':' line) [
  | some (id, state) ↦ (id, some (trim_text state))
  | none ↦ elim (split_at b'=' line) [
    | some (id, state) ↦ (id, some (trim_text state))
    | none ↦ (line, none)
  ]
]

-- What a line says: nothing (an empty line or a comment), or a client's id and state.
unfoldable pub read_line : CString → Option (CString × Option CString)
unfolding split_state
read_line [] = none
read_line (c ∷ s) =
    if c == b'#'
    then none
    else some (let (id, state) = split_state (c ∷ s) in (trim_text id, state))

unfoldable pub member : CString → List CString → Bool
member id [] = false
member id (x ∷ xs) = str_eq x id || member id xs

-- A line's id is refused: it is empty or too long, it was seen before, or `seen` is full.
unfoldable pub refuses_id : List CString → CString → Bool
unfolding member
refuses_id seen id =
    is_empty id || leb max_id_len (length id) || member id seen || leb max_seen (length seen)

unfoldable pub found : CString → Status → CString → Bool → Status
found client result id enabled =
    if str_eq id client then (if enabled then ok else disabled) else result

-- The loop of `auth_client_status` after a line was read whole and trimmed, and the end of the loop.
-- `seen` holds the ids in order.
unfoldable pub scan : CString → List CString → Status → List CString → Status
unfolding read_line refuses_id valid_registry_state found
scan client seen result [] = result
scan client seen result (l ∷ ls) =
    if cut_short 255 l then invalid_registry else elim (read_line (trim_text l)) [
      | none ↦ scan client seen result ls
      | some (id, state) ↦
          if refuses_id seen id then invalid_registry else elim (valid_registry_state state) [
            | none ↦ invalid_registry
            | some enabled ↦
                scan client (seen ++ copy_str max_id_len id ∷ []) (found client result id enabled)
                  ls
          ]
    ]

-- `none` is a registry that cannot be opened.
unfoldable pub auth_client_status : Option CString → CString → Status
unfolding scan
auth_client_status none client = invalid_registry
auth_client_status (some text) client =
    if is_empty client then invalid_registry else scan client [] not_found (read_lines 255 text)

abbrev pub is_ok : Status → Bool
is_ok ok = true
is_ok not_found = false
is_ok disabled = false
is_ok invalid_registry = false

unfoldable pub auth_client_registered : Option CString → CString → Bool
unfolding auth_client_status
auth_client_registered registry client = is_ok (auth_client_status registry client)
