-- ===== src/ActiveIds/Laws.antt =====
-- No client id has two sessions at once.
use distributed_software_upd.Prelude.{
  take_self, ◌<◌, ◌≡◌, ap, ◌∙◌, inl, inr, true, false, ◌||◌, none, CString, if◌then◌else◌, length,
  str_eq, is_empty, arith, Bool-cases, Option-cases,
}
use distributed_software_upd.ActiveIds.{
  Slots, held, free, search_slots, Reserved, reserved, duplicate, refused, reserve_active_client_id,
  release_active_client_id,
}
use distributed_software_upd.ActiveIds.Table.{
  holds, Distinct, free_index, search_slots_lem, shift_zero, holds-set_slot, clear_first-set_slot,
  set_slot-Distinct,
}

search_slots_zero :
    (id : CString) (slots : Slots)
    → is_empty id ≡ false
    → search_slots id slots 0 none ≡ (if holds slots id then held else free (free_index slots))
search_slots_zero id slots e =
    search_slots_lem id slots 0 none e
    ∙ ap (λ r. if holds slots id then held else free r) (shift_zero (free_index slots))

-- What a call of `reserve_active_client_id` does, in its three cases.
abbrev pub IsAnswer : Slots → CString → Reserved → Type 0
IsAnswer slots id duplicate = holds slots id ≡ true
IsAnswer slots id refused = (holds slots id ≡ false) × (free_index slots ≡ none)
IsAnswer slots id (reserved next) =
    (holds slots id ≡ false)
    × ((j : CString) → is_empty j ≡ false → holds next j ≡ (str_eq id j || holds slots j))
    × (release_active_client_id next id ≡ slots)
    × Distinct next

-- `reserve_active_client_id` reports a duplicate exactly for an id that has a session, and refuses
-- another id only where no slot is free. Otherwise the id has a session from then on, every other
-- id as before, and no id has two; and `release_active_client_id` gives back the slots as they were.
-- The id is not empty and fits its slot.
pub reserve_active_client_id_lem :
    (slots : Slots) (id : CString)
    → is_empty id ≡ false
    → length id < 64
    → Distinct slots
    → IsAnswer slots id (reserve_active_client_id slots id)
unfolding reserve_active_client_id release_active_client_id
reserve_active_client_id_lem slots id e fits d = elim (Bool-cases (holds slots id)) [
  | inl t ↦ rw (e, if◌then◌else◌, search_slots_zero id slots e, t) t
  | inr t ↦ elim (Option-cases (free_index slots)) [
    | inl n ↦ rw (e, if◌then◌else◌, search_slots_zero id slots e, t, n) (t, n)
    | inr (i, n) ↦
        let w = take_self 63 id (omega arith) in
        rw (e, if◌then◌else◌, search_slots_zero id slots e, t, n, w)
          (
            t,
            λ j. holds-set_slot slots i id j n,
            rw (e, if◌then◌else◌) (clear_first-set_slot slots i id n t),
            set_slot-Distinct slots i id n t d,
          )
  ]
]
