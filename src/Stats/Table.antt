-- ===== src/Stats/Table.antt =====
-- The table of active clients as a finite map from keys to labels.
use distributed_software_upd.Prelude.{
  ℕ, suc, ◌≤◌, ◌≡◌, refl, ◌↔◌, inl, inr, Option, none, some, List, [], ◌∷◌, ◌++◌, CString,
  if◌then◌else◌, length, str_eq, str_eq-eq, str_eq_iff, arith, Bool-cases, Option-cases,
}
use distributed_software_upd.Stats.{Row, active_client_max, find_active_key, set_label}

-- The label that a key has.
abbrev pub label_of : List Row → CString → Option CString
label_of [] key = none
label_of (r ∷ rows) key = if str_eq r.key key then some r.label else label_of rows key

-- No key stands in two rows, and there is room for every row.
abbrev pub Distinct : List Row → Type 0
Distinct [] = Unit {0}
Distinct (r ∷ rows) = (label_of rows r.key ≡ none) × Distinct rows

pub record IsTable (rows : List Row) : Type 0 where
  pub distinct : Distinct rows
  pub bounded : length rows ≤ active_client_max

pub find-label_of :
    (rows : List Row) (key : CString)
    → (find_active_key rows key ≡ none) ↔ (label_of rows key ≡ none)
unfolding find_active_key
find-label_of [] key = (λ _. refl, λ _. refl)
find-label_of (r ∷ rows) key = ground (arith, find-label_of rows key)

pub label_of-append :
    (rows : List Row) (r : Row) (j : CString)
    → label_of (rows ++ r ∷ []) j ≡ elim (label_of rows j) [
      | none ↦ if str_eq r.key j then some r.label else none
      | some l ↦ some l
    ]
label_of-append [] r j = ground arith
label_of-append (q ∷ rows) r j = ground (arith, label_of-append rows r j)

-- A row found keeps its key and gets the new label, and no other row changes.
pub set_label-label_of :
    (rows : List Row) (k j l : CString) (i : ℕ)
    → find_active_key rows k ≡ some i
    → label_of (set_label rows i l) j ≡ (if str_eq k j then some l else label_of rows j)
unfolding find_active_key
set_label-label_of [] k j l i e = cc
set_label-label_of (r ∷ rows) k j l i e = elim (Bool-cases (str_eq r.key k)) [
  | inl t ↦
      let same = str_eq-eq r.key k t in
      let z : i ≡ 0 = ground (arith, t) in rw (z, same) (ground arith)
  | inr t ↦ elim (Option-cases (find_active_key rows k)) [
    | inl n ↦ absurd (ground arith)
    | inr (m, n) ↦
        let z : i ≡ suc m = ground arith in
        rw z (
          ground (
            arith,
            set_label-label_of rows k j l m n,
            str_eq_iff r.key j,
            str_eq_iff k j,
            str_eq_iff r.key k,
          ))
  ]
]
