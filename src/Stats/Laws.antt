-- ===== src/Stats/Laws.antt =====
-- What the operations on the table of active clients promise.
use distributed_software_upd.Prelude.{
  take_self, ℕ, suc, ◌<◌, ◌≡◌, refl, ap, ◌∙◌, inl, inr, true, false, none, some, List, [], ◌∷◌,
  ◌++◌, CString, ltb, if◌then◌else◌, length, str_eq, str_eq-eq, str_eq_iff, str_eq_self, is_empty,
  arith, Bool-cases, Option-cases,
}
use distributed_software_upd.Stats.{
  Row, Stats, active_client_max, client_info_len, find_active_key, shown, add_row, update_row,
  remove_row, append_row, remove_at, stats_active_client_add, stats_active_client_update,
  stats_active_client_remove,
}
use distributed_software_upd.Stats.Table.{
  label_of, Distinct, find-label_of, label_of-append, set_label-label_of,
}

abbrev new_row : CString → CString → Row
new_row key label = record { key = key; label = shown key label }

append_row-room :
    (rows : List Row) (k l : CString)
    → length k < client_info_len
    → length rows < active_client_max
    → append_row rows k l ≡ rows ++ new_row k l ∷ []
append_row-room rows k l fits room =
    let t : ltb (length rows) active_client_max ≡ true = ground arith in
    let w = take_self 127 k (omega arith) in rw (t, if◌then◌else◌, w) refl

append_row-full :
    (rows : List Row) (k l : CString)
    → ltb (length rows) active_client_max ≡ false
    → append_row rows k l ≡ rows
append_row-full rows k l t = rw (t, if◌then◌else◌) refl

-- After `stats_active_client_add` with room in the table, the key has the new label, and every
-- other key has the label that it had. The key is not empty and fits its row.
pub add-label_of :
    (s : Stats) (k l j : CString)
    → is_empty k ≡ false
    → length k < client_info_len
    → length s.active < active_client_max
    → label_of (stats_active_client_add s k l).active j
      ≡ (if str_eq k j then some (shown k l) else label_of s.active j)
unfolding stats_active_client_add add_row
add-label_of s k l j e fits room = elim (Option-cases (find_active_key s.active k)) [
  | inl n ↦
      rw
        (
          e,
          if◌then◌else◌,
          n,
          add_row,
          append_row-room s.active k l fits room,
          label_of-append s.active (new_row k l) j,
        )
        (elim (Bool-cases (str_eq k j)) [
          | inl t ↦
              let same = str_eq-eq k j t in
              let u = (find-label_of s.active k).0 n in
              let u' : label_of s.active j ≡ none = rw same at u in rw u' refl
          | inr t ↦ rw t (ground arith)
        ])
  | inr (i, n) ↦ rw (e, if◌then◌else◌, n, add_row) (set_label-label_of s.active k j (shown k l) i n)
]

-- `stats_active_client_update` gives a key that is there its new label, and changes nothing else.
pub update-label_of :
    (s : Stats) (k l j : CString)
    → is_empty k ≡ false
    → label_of (stats_active_client_update s k l).active j ≡ (
        if str_eq k j
        then elim (label_of s.active k) [ none ↦ none | some _ ↦ some (shown k l) ]
        else label_of s.active j)
unfolding stats_active_client_update update_row
update-label_of s k l j e = elim (Option-cases (find_active_key s.active k)) [
  | inl n ↦
      let u = (find-label_of s.active k).0 n in
      rw (e, if◌then◌else◌, n, update_row, u)
        (elim (Bool-cases (str_eq k j)) [
          | inl t ↦ let same = str_eq-eq k j t in rw (t) (rw (← same) u)
          | inr t ↦ rw t refl
        ])
  | inr (i, n) ↦ elim (Option-cases (label_of s.active k)) [
    | inl u ↦ absurd (ground (arith, find-label_of s.active k))
    | inr (old, u) ↦
        rw (e, if◌then◌else◌, n, update_row, u) (set_label-label_of s.active k j (shown k l) i n)
  ]
]

remove_at-label_of :
    (rows : List Row) (k j : CString) (i : ℕ)
    → Distinct rows
    → find_active_key rows k ≡ some i
    → label_of (remove_at rows i) j ≡ (if str_eq k j then none else label_of rows j)
unfolding find_active_key
remove_at-label_of [] k j i d e = cc
remove_at-label_of (r ∷ rows) k j i d e = elim (Bool-cases (str_eq r.key k)) [
  | inl t ↦
      let same = str_eq-eq r.key k t in
      let z : i ≡ 0 = ground (arith, t) in
      rw (z, ← same)
        (elim (Bool-cases (str_eq r.key j)) [
          | inl u ↦ let here = str_eq-eq r.key j u in rw u (rw (← here) d.0)
          | inr u ↦ rw u refl
        ])
  | inr t ↦ elim (Option-cases (find_active_key rows k)) [
    | inl n ↦ absurd (ground arith)
    | inr (m, n) ↦
        let z : i ≡ suc m = ground arith in
        rw z (
          ground (
            arith,
            remove_at-label_of rows k j m d.1 n,
            str_eq_iff r.key j,
            str_eq_iff k j,
            str_eq_iff r.key k,
          ))
  ]
]

-- After `stats_active_client_remove` the key has no label, and every other key has the label that
-- it had.
pub remove-label_of :
    (s : Stats) (k j : CString)
    → is_empty k ≡ false
    → Distinct s.active
    → label_of (stats_active_client_remove s k).active j
      ≡ (if str_eq k j then none else label_of s.active j)
unfolding stats_active_client_remove remove_row
remove-label_of s k j e d = elim (Option-cases (find_active_key s.active k)) [
  | inl n ↦
      let u = (find-label_of s.active k).0 n in
      rw (e, if◌then◌else◌, n, remove_row)
        (elim (Bool-cases (str_eq k j)) [
          | inl t ↦ let same = str_eq-eq k j t in rw t (rw (← same) u)
          | inr t ↦ rw t refl
        ])
  | inr (i, n) ↦ rw (e, if◌then◌else◌, n, remove_row) (remove_at-label_of s.active k j i d n)
]

find-append :
    (rows : List Row) (r : Row)
    → find_active_key rows r.key ≡ none
    → find_active_key (rows ++ r ∷ []) r.key ≡ some (length rows)
unfolding find_active_key
find-append [] r e = rw (str_eq_self r.key, if◌then◌else◌) refl
find-append (q ∷ rows) r e = ground (arith, find-append rows r)

remove_at-append : (rows : List Row) (r : Row) → remove_at (rows ++ r ∷ []) (length rows) ≡ rows
remove_at-append [] r = refl
remove_at-append (q ∷ rows) r = ap (λ rs. q ∷ rs) (remove_at-append rows r)

remove_row-append :
    (rows : List Row) (k l : CString)
    → find_active_key rows k ≡ none
    → remove_row (rows ++ new_row k l ∷ []) k ≡ rows
unfolding remove_row
remove_row-append rows k l n =
    rw (find-append rows (new_row k l) n, remove_row) (remove_at-append rows (new_row k l))

remove_row-absent :
    (rows : List Row) (k : CString) → find_active_key rows k ≡ none → remove_row rows k ≡ rows
unfolding remove_row
remove_row-absent rows k n = rw (n, remove_row) refl

add_row-absent :
    (rows : List Row) (k l : CString)
    → find_active_key rows k ≡ none
    → add_row rows k l ≡ append_row rows k l
unfolding add_row
add_row-absent rows k l n = rw (n, add_row) refl

remove_row-add_row :
    (rows : List Row) (k l : CString)
    → length k < client_info_len
    → find_active_key rows k ≡ none
    → remove_row (add_row rows k l) k ≡ rows
remove_row-add_row rows k l fits n = elim (Bool-cases (ltb (length rows) active_client_max)) [
  | inl t ↦
      let room = append_row-room rows k l fits (ground arith) in
      ap (λ r. remove_row r k) (add_row-absent rows k l n ∙ room) ∙ remove_row-append rows k l n
  | inr t ↦
      ap (λ r. remove_row r k) (add_row-absent rows k l n ∙ append_row-full rows k l t)
      ∙ remove_row-absent rows k n
]

-- A worker that enters its client with `stats_active_client_add` and takes it out again with
-- `stats_active_client_remove` leaves the table as it was, whether there was room or not. The key
-- was not there, and it fits its row.
pub remove-add :
    (s : Stats) (k l : CString)
    → length k < client_info_len
    → label_of s.active k ≡ none
    → (stats_active_client_remove (stats_active_client_add s k l) k).active ≡ s.active
unfolding stats_active_client_remove stats_active_client_add
remove-add s k l fits fresh = elim (Bool-cases (is_empty k)) [
  | inl e ↦ rw (e, if◌then◌else◌) refl
  | inr e ↦
      rw (e, if◌then◌else◌)
        (remove_row-add_row s.active k l fits ((find-label_of s.active k).1 fresh))
]
