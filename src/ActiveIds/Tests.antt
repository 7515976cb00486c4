-- ===== src/ActiveIds/Tests.antt =====
-- Active ids at concrete inputs.
use distributed_software_upd.Prelude.{◌≡◌, refl, [], ◌∷◌, codes, inl, inr, arith, str_eq}
use distributed_software_upd.ActiveIds.{
  Slots, reserved, duplicate, reserve_active_client_id, search_slots,
}
use distributed_software_upd.ActiveIds.Table.{Distinct, holds}
use distributed_software_upd.ActiveIds.Laws.{IsAnswer, reserve_active_client_id_lem}

abbrev three_slots : Slots
three_slots = codes "alice" ∷ ([] ∷ (codes "bob" ∷ []))

takes_free_slot :
    reserve_active_client_id three_slots (codes "carol")
    ≡ reserved (codes "alice" ∷ (codes "carol" ∷ (codes "bob" ∷ [])))
unfolding reserve_active_client_id search_slots str_eq
takes_free_slot = refl

reports_duplicate : reserve_active_client_id three_slots (codes "bob") ≡ duplicate
unfolding reserve_active_client_id search_slots str_eq
reports_duplicate = refl

three_slots-Distinct : Distinct three_slots
unfolding holds str_eq
three_slots-Distinct = (inr refl, (inl refl, (inr refl, tt)))

reserve_active_client_id_lem_example :
    IsAnswer three_slots (codes "carol") (reserve_active_client_id three_slots (codes "carol"))
reserve_active_client_id_lem_example =
    reserve_active_client_id_lem three_slots (codes "carol") refl (omega arith) three_slots-Distinct
