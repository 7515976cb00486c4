-- ===== src/Stats/Invariant.antt =====
-- The table of active clients stays a table: no key twice, no more rows than the arrays hold.
use distributed_software_upd.Prelude.{
  take_self, ℕ, zero, suc, ◌≤◌, ◌<◌, ◌≡◌, refl, inl, inr, none, List, [], ◌∷◌, ◌++◌, CString, ltb,
  if◌then◌else◌, length, length-append, str_eq, str_eq_iff, is_empty, arith, Bool-cases,
  Option-cases,
}
use distributed_software_upd.Stats.{
  Row, Stats, client_info_len, find_active_key, shown, add_row, update_row, remove_row, append_row,
  set_label, remove_at, stats_active_client_add, stats_active_client_update,
  stats_active_client_remove,
}
use distributed_software_upd.Stats.Table.{
  label_of, Distinct, IsTable, find-label_of, label_of-append,
}

set_label-keeps_none :
    (rows : List Row) (i : ℕ) (l j : CString)
    → label_of rows j ≡ none
    → label_of (set_label rows i l) j ≡ none
set_label-keeps_none [] i l j h = h
set_label-keeps_none (r ∷ rows) zero l j h = ground arith
set_label-keeps_none (r ∷ rows) (suc i) l j h = ground (arith, set_label-keeps_none rows i l j)

set_label-IsTable :
    (rows : List Row) (i : ℕ) (l : CString)
    → Distinct rows
    → Distinct (set_label rows i l) × (length (set_label rows i l) ≡ length rows)
set_label-IsTable [] i l d = (tt, refl)
set_label-IsTable (r ∷ rows) zero l d = (d, refl)
set_label-IsTable (r ∷ rows) (suc i) l d =
    let (p, q) = set_label-IsTable rows i l d.1 in
    ((set_label-keeps_none rows i l r.key d.0, p), omega arith)

remove_at-keeps_none :
    (rows : List Row) (i : ℕ) (j : CString)
    → label_of rows j ≡ none
    → label_of (remove_at rows i) j ≡ none
remove_at-keeps_none [] i j h = h
remove_at-keeps_none (r ∷ rows) zero j h = ground arith
remove_at-keeps_none (r ∷ rows) (suc i) j h = ground (arith, remove_at-keeps_none rows i j)

remove_at-IsTable :
    (rows : List Row) (i : ℕ)
    → Distinct rows
    → Distinct (remove_at rows i) × (length (remove_at rows i) ≤ length rows)
remove_at-IsTable [] i d = (tt, omega arith)
remove_at-IsTable (r ∷ rows) zero d = (d.1, omega arith)
remove_at-IsTable (r ∷ rows) (suc i) d =
    let (p, q) = remove_at-IsTable rows i d.1 in
    ((remove_at-keeps_none rows i r.key d.0, p), omega arith)

append-Distinct :
    (rows : List Row) (r : Row)
    → Distinct rows
    → label_of rows r.key ≡ none
    → Distinct (rows ++ r ∷ [])
append-Distinct [] r d h = (refl, tt)
append-Distinct (q ∷ rows) r d h = elim (Bool-cases (str_eq q.key r.key)) [
  | inl t ↦ absurd (ground arith)
  | inr t ↦
      let h' : label_of rows r.key ≡ none = ground arith in
      (
        rw (label_of-append rows r q.key, d.0)
            (ground (arith, str_eq_iff q.key r.key, str_eq_iff r.key q.key)),
        append-Distinct rows r d.1 h',
      )
]

append_row-IsTable :
    (rows : List Row) (k l : CString)
    → length k < client_info_len
    → label_of rows k ≡ none
    → IsTable rows
    → IsTable (append_row rows k l)
append_row-IsTable rows k l fits fresh t = elim (Bool-cases (ltb (length rows) 128)) [
  | inl b ↦
      let w = take_self 127 k (omega arith) in
      rw (b, append_row, if◌then◌else◌, w)
        (record {
          distinct = append-Distinct rows _ t.distinct fresh;
          bounded = ground (arith, length-append rows (record { key = k; label = shown k l } ∷ []));
        })
  | inr b ↦ rw (b, append_row, if◌then◌else◌) t
]

-- Adding, relabelling and removing a client keep the table: no key stands in two rows, and there
-- are at most 128 rows. A key that is added fits its row.
pub active_client-IsTable :
    (s : Stats) (k l : CString)
    → length k < client_info_len
    → IsTable s.active
    → IsTable (stats_active_client_add s k l).active
      × IsTable (stats_active_client_update s k l).active
      × IsTable (stats_active_client_remove s k).active
unfolding stats_active_client_add stats_active_client_update stats_active_client_remove add_row
    update_row remove_row
active_client-IsTable s k l fits t = elim (Bool-cases (is_empty k)) [
  | inl e ↦ rw (e, if◌then◌else◌) (t, t, t)
  | inr e ↦
      rw (e, if◌then◌else◌)
        (elim (Option-cases (find_active_key s.active k)) [
          | inl n ↦
              rw (n, add_row, update_row, remove_row)
                (append_row-IsTable s.active k l fits ((find-label_of s.active k).0 n) t, t, t)
          | inr (i, n) ↦
              let (p, q) = set_label-IsTable s.active i (shown k l) t.distinct in
              let (p', q') = remove_at-IsTable s.active i t.distinct in
              let b = t.bounded in
              let relabelled : IsTable (set_label s.active i (shown k l)) = record {
                distinct = p;
                bounded = omega arith;
              } in
              rw (n, add_row, update_row, remove_row)
                (relabelled, relabelled, record { distinct = p'; bounded = omega arith })
        ])
]
