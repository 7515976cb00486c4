-- ===== src/Stats/Tests.antt =====
-- The table of active clients at concrete inputs.
use distributed_software_upd.Prelude.{◌≡◌, refl, none, [], ◌∷◌, CString, codes, arith, str_eq}
use distributed_software_upd.Stats.{
  Stats, stats_init, find_active_key, remove_row, stats_active_client_add,
  stats_active_client_update, stats_active_client_remove, stats_active_client_snapshot,
}
use distributed_software_upd.Stats.Table.{label_of, IsTable}
use distributed_software_upd.Stats.Invariant.{active_client-IsTable}
use distributed_software_upd.Stats.Laws.{remove-add}

abbrev alice : CString
alice = codes "alice"

abbrev bob : CString
bob = codes "bob"

abbrev two_clients : Stats
two_clients = record (stats_init 4) {
  active =
      record { key = alice; label = codes "alice 1.0.0" }
      ∷ (record { key = bob; label = bob } ∷ []);
}

two_clients-IsTable : IsTable two_clients.active
unfolding str_eq
two_clients-IsTable = record { distinct = (refl, (refl, tt)); bounded = omega arith }

snapshot_cuts :
    stats_active_client_snapshot (stats_active_client_remove two_clients alice) 3 ≡ (bob ∷ [], 1)
unfolding stats_active_client_snapshot stats_active_client_remove remove_row find_active_key str_eq
snapshot_cuts = refl

no_carol : label_of two_clients.active (codes "carol") ≡ none
unfolding str_eq
no_carol = refl

remove-add_example :
    (stats_active_client_remove
      (stats_active_client_add two_clients (codes "carol") bob)
      (codes "carol")).active
    ≡ two_clients.active
remove-add_example = remove-add two_clients (codes "carol") bob (omega arith) no_carol

active_client-IsTable_example :
    IsTable (stats_active_client_add two_clients (codes "carol") bob).active
    × IsTable (stats_active_client_update two_clients (codes "carol") bob).active
    × IsTable (stats_active_client_remove two_clients (codes "carol")).active
active_client-IsTable_example =
    active_client-IsTable two_clients (codes "carol") bob (omega arith) two_clients-IsTable
