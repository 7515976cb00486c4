-- ===== src/VersionTable/Progress.antt =====
-- The version is written where nothing stands in the way.
use distributed_software_upd.Prelude.{
  ℕ, zero, suc, ◌>>=◌, cut_short, ◌<◌, ◌≡◌, refl, sym, ◌∙◌, inl, inr, Bool, true, false, ◌||◌,
  Option, none, some, List, [], ◌∷◌, ◌++◌, CString, leb, if◌then◌else◌, length, str_eq, is_empty,
  arith, Bool-cases, Option-cases,
}
use distributed_software_upd.VersionTable.{
  Calls, version_row_ignorable, take_row, found_version, new_row, get_current_version, scan_rows,
  rewrite_rows, row_of, rows_of, max_rows, add_row, next_rows, whole, write_version_file,
}
use distributed_software_upd.VersionTable.Rewriting.{rewrite_rows-Rewritten}
use distributed_software_upd.VersionTable.Scanning.{Rewritten-length}
use distributed_software_upd.VersionTable.Laws.{read_table}

rewrite_rows_total :
    (client version : CString) (room : ℕ) (ls seen : List CString) (f : Option CString)
    {x : Option CString}
    → scan_rows client seen f ls ≡ some x
    → (r : List CString × Bool) × (rewrite_rows client version seen room ls ≡ some r)
unfolding scan_rows rewrite_rows
rewrite_rows_total client version zero ls seen f h = (([], false), refl)
rewrite_rows_total client version (suc room) [] seen f h = (([], false), refl)
rewrite_rows_total client version (suc room) (l ∷ ls) seen f h =
    elim (Bool-cases (cut_short 255 l)) [
      | inl c ↦ absurd (cc (rw (c, if◌then◌else◌) at h))
      | inr c ↦ elim (Bool-cases (version_row_ignorable l)) [
        | inl g ↦
            let h' = rw (c, if◌then◌else◌, g) at h in
            let (q, p) = rewrite_rows_total client version room ls seen f h' in
            ((l ∷ q.0, q.1), rw (c, if◌then◌else◌, g, p) refl)
        | inr g ↦ elim (Option-cases (take_row seen l)) [
          | inl n ↦ absurd (cc (rw (c, if◌then◌else◌, g, n) at h))
          | inr ((id, old, seen'), n) ↦
              let h' = rw (c, if◌then◌else◌, g, n) at h in
              let (q, p) =
                rewrite_rows_total client version room ls seen' (found_version client id old f)
                  h' in
              (
                (new_row client version id l ∷ q.0, str_eq id client || q.1),
                rw (c, if◌then◌else◌, g, n, p) refl,
              )
        ]
      ]
    ]

add_row_total :
    (client version : CString) (r : List CString × Bool)
    → length r.0 < max_rows
    → (rows : List CString) × (add_row client version r ≡ some rows)
add_row_total client version (rows, true) h = (rows, refl)
add_row_total client version (rows, false) h =
    let t : leb max_rows (length rows) ≡ false = ground arith in
    (rows ++ row_of client version ∷ [], rw (t, if◌then◌else◌) refl)

-- Every call succeeds, and the table is read whole.
abbrev pub fine : Calls
fine = record {
  locks = true;
  reading = whole;
  opens = true;
  puts = true;
  syncs = true;
  closes = true;
  renames = true;
}

-- Where every call succeeds, the table has a row to spare and the client can read it, the version is
-- written.
pub write_version_file_succeeds :
    (path client version : CString) (table : Option CString) {v : CString}
    → is_empty path ≡ false
    → is_empty client ≡ false
    → length (rows_of table) < max_rows
    → get_current_version [] client true table ≡ some v
    → (write_version_file fine path client version table).0 ≡ true
unfolding write_version_file next_rows
write_version_file_succeeds path client version table p c room h =
    elim (Option-cases (scan_rows client [] none (rows_of table))) [
      | inl n ↦ let e = sym (read_table client table) ∙ h in absurd (cc (rw n at e))
      | inr (x, n) ↦
          let (r, q) = rewrite_rows_total client version max_rows (rows_of table) [] none n in
          let small =
            Rewritten-length (
              rewrite_rows-Rewritten client version max_rows (rows_of table) [] r (omega arith)
                q) in
          let (rows, a) = add_row_total client version r (omega (arith, small)) in
          rw (p, c, if◌then◌else◌, q, ◌>>=◌, a) refl
    ]
