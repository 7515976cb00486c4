-- ===== src/Auth/Registry.antt =====
-- A registry of clients as the list of its entries.
use distributed_software_upd.Prelude.{
  ◌<◌, ◌≡◌, refl, inl, inr, Bool, true, false, ◌||◌, Option, none, some, List, [], ◌∷◌, ◌++◌,
  CString, leb, if◌then◌else◌, length, str_eq, str_eq_iff, is_empty, trim_text, cut_short, arith,
  Bool-cases,
}
use distributed_software_upd.Auth.{
  Status, ok, not_found, disabled, max_id_len, max_seen, valid_registry_state, read_line, member,
  found,
}

-- The ids of the registry with what is said of them: whether they are enabled.
abbrev pub Registry : Type 0
Registry = List (CString × Bool)

abbrev pub with_entry : CString → Option Bool → Option Registry → Option Registry
with_entry id none rest = none
with_entry id (some b) none = none
with_entry id (some b) (some es) = some ((id, b) ∷ es)

abbrev pub add_line : Option (CString × Option CString) → Option Registry → Option Registry
add_line none rest = rest
add_line (some (id, state)) rest =
    if is_empty id || leb max_id_len (length id)
    then none
    else with_entry id (valid_registry_state state) rest

-- The entries of a registry whose lines are all well formed, each by itself.
unfoldable pub entries_of : List CString → Option Registry
entries_of [] = some []
entries_of (l ∷ ls) =
    let rest = entries_of ls in
    if cut_short 255 l then none else add_line (read_line (trim_text l)) rest

-- Behind the ids of `seen`: no id stands twice, and there are at most 512.
abbrev pub Fresh : List CString → Registry → Type 0
Fresh seen [] = Unit {0}
Fresh seen (e ∷ es) =
    (member e.0 seen ≡ false) × (length seen < max_seen) × Fresh (seen ++ e.0 ∷ []) es

abbrev pub IsRegistry : Registry → Type 0
IsRegistry es = Fresh [] es

unfoldable pub lookup : CString → Registry → Option Bool
lookup client [] = none
lookup client (e ∷ es) = if str_eq e.0 client then some e.1 else lookup client es

abbrev pub answer_or : Status → Option Bool → Status
answer_or s none = s
answer_or s (some true) = ok
answer_or s (some false) = disabled

abbrev pub answer : Option Bool → Status
answer o = answer_or not_found o

unfoldable pub replay : CString → Status → Registry → Status
replay client s [] = s
replay client s (e ∷ es) = replay client (found client s e.0 e.1) es

pub member-append :
    (id : CString) (seen : List CString) (x : CString)
    → member id (seen ++ x ∷ []) ≡ (member id seen || str_eq x id)
unfolding member
member-append id [] x = ground arith
member-append id (y ∷ seen) x = ground (arith, member-append id seen x)

pub Fresh-lookup :
    (id : CString) (seen : List CString) (es : Registry)
    → member id seen ≡ true
    → Fresh seen es
    → lookup id es ≡ none
unfolding lookup
Fresh-lookup id seen [] m f = refl
Fresh-lookup id seen (e ∷ es) m f = elim (Bool-cases (str_eq e.0 id)) [
  | inl t ↦
      let same = (str_eq_iff e.0 id).0 t in
      let m' : member id seen ≡ false = rw (← same) f.0 in absurd (cc)
  | inr t ↦
      rw (t, if◌then◌else◌)
        (Fresh-lookup id (seen ++ e.0 ∷ []) es (rw (member-append id seen e.0, m) refl) f.2)
]

pub replay-lookup :
    (client : CString) (s : Status) (seen : List CString) (es : Registry)
    → Fresh seen es
    → replay client s es ≡ answer_or s (lookup client es)
unfolding lookup replay found
replay-lookup client s seen [] f = refl
replay-lookup client s seen (e ∷ es) f = elim (Bool-cases (str_eq e.0 client)) [
  | inl t ↦
      let same = (str_eq_iff e.0 client).0 t in
      let m : member client (seen ++ e.0 ∷ []) ≡ true =
        rw (member-append client seen e.0, t) (ground arith) in
      let n = Fresh-lookup client (seen ++ e.0 ∷ []) es m f.2 in
      let step = replay-lookup client (if e.1 then ok else disabled) (seen ++ e.0 ∷ []) es f.2 in
      rw (t, if◌then◌else◌, step, n)
        (elim (Bool-cases e.1) [ inl b ↦ rw b refl | inr b ↦ rw b refl ])
  | inr t ↦ rw (t, if◌then◌else◌) (replay-lookup client s (seen ++ e.0 ∷ []) es f.2)
]
