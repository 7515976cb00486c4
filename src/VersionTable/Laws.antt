-- ===== src/VersionTable/Laws.antt =====
-- What is written into the table is read from it.
use distributed_software_upd.Prelude.{
  ℕ, ◌+◌, ◌≤◌, ◌<◌, ◌≡◌, refl, sym, subst, ◌∙◌, inl, inr, Bool, true, false, ◌||◌, ◌&&◌, not,
  Option, none, some, List, [], ◌∷◌, ◌++◌, CString, leb, if◌then◌else◌, length, str_eq, str_eq_self,
  is_empty, join_lines, ends_line, AreLines, read_lines-join_lines, read_lines-AreLines, AreWhole,
  arith, Bool-cases, Option-cases, >>=-eq-some,
}
use distributed_software_upd.Auth.{member}
use distributed_software_upd.VersionTable.{
  Calls, version_or, get_current_version, scan_rows, rewrite_rows, row_of, rows_of, max_rows,
  add_row, next_rows, text_found, write_version_file,
}
use distributed_software_upd.VersionTable.Rows.{IsId, IsVersion, row_of-is_line, length-row_of}
use distributed_software_upd.VersionTable.Rewriting.{Rewritten, rewrite_rows-Rewritten}
use distributed_software_upd.VersionTable.Scanning.{
  scan_client, scan_other, scan_appended, with_row_other, Rewritten-AreLines, Rewritten-AreWhole,
  Rewritten-length, Rewritten-same,
}

-- The last line of the table is ended.
abbrev pub IsEnded : Option CString → Type 0
IsEnded none = Unit {0}
IsEnded (some text) = ends_line text ≡ true

abbrev pub answer : Option (Option CString) → Option CString
answer none = none
answer (some found) = some (version_or found)

pub read_table :
    (who : CString) (table : Option CString)
    → get_current_version [] who true table ≡ answer (scan_rows who [] none (rows_of table))
unfolding get_current_version
read_table who none = refl
read_table who (some text) = refl

AreLines-append :
    (n : ℕ) (ls : List CString) (l : CString)
    → AreLines n ls
    → AreLines n (l ∷ [])
    → AreLines n (ls ++ l ∷ [])
AreLines-append n [] l a b = b
AreLines-append n (x ∷ ls) l a b = (a.0, AreLines-append n ls l a.1 b)

-- The rows that were read are lines, where the table is ended and its rows were all taken.
rows_of-AreLines :
    (table : Option CString)
    → IsEnded table
    → AreWhole 255 (rows_of table)
    → AreLines 255 (rows_of table)
rows_of-AreLines none e w = tt
rows_of-AreLines (some text) e w = read_lines-AreLines 255 text e w

-- What a reader finds in new rows.
abbrev pub Serves : CString → CString → Option CString → List CString → Type 0
Serves client version table rows =
    (scan_rows client [] none rows ≡ some (some version))
    × ((who : CString)
        → str_eq client who ≡ false
        → scan_rows who [] none rows ≡ scan_rows who [] none (rows_of table))
    × AreLines 255 rows

module _ (client version : CString) (i : IsId client) (v : IsVersion version)
    (table : Option CString) (ended : IsEnded table) where
  add_row-Serves :
      (r : List CString × Bool) {rows : List CString}
      → Rewritten client version [] (rows_of table) r.0 r.1
      → add_row client version r ≡ some rows
      → Serves client version table rows
  unfolding member
  add_row-Serves (old, true) d h =
      let e : old ≡ _ = cc in
      subst (Serves client version table) e (
        scan_client client version i v none d,
        λ who n. scan_other client version i v who none n d,
        Rewritten-AreLines client version i v d
            (rows_of-AreLines table ended (Rewritten-AreWhole d)),
      )
  add_row-Serves (old, false) {rows} d h = elim (Bool-cases (leb max_rows (length old))) [
    | inl t ↦ absurd (ground arith)
    | inr t ↦
        let e : old ++ row_of client version ∷ [] ≡ rows = ground arith in
        let room : 0 + length (rows_of table) < 512 = ground (arith, Rewritten-length d) in
        let a = scan_appended client version i v client none refl refl room d in
        let same = Rewritten-same refl d in
        let old_scan : scan_rows client [] none (rows_of table) ≡ some none =
          subst (λ ls. scan_rows client [] none ls ≡ some none) same
            (scan_client client version i v none d) in
        let lines =
          Rewritten-AreLines client version i v d
            (rows_of-AreLines table ended (Rewritten-AreWhole d)) in
        subst (Serves client version table) e (
          a ∙ rw (old_scan, str_eq_self client) refl,
          λ who n.
              scan_appended client version i v who none refl refl room d
              ∙ with_row_other client version i v who n (scan_rows who [] none (rows_of table)),
          AreLines-append 255 old (row_of client version) lines
              ((row_of-is_line client version i v, length-row_of client version i v), tt),
        )
  ]

  next_rows-Serves :
      {rows : List CString}
      → length (rows_of table) ≤ max_rows
      → next_rows client version table ≡ some rows
      → Serves client version table rows
  unfolding next_rows
  next_rows-Serves room h =
      let (r, p, q) = >>=-eq-some (rewrite_rows client version [] max_rows (rows_of table)) _ h in
      add_row-Serves r (rewrite_rows-Rewritten client version max_rows (rows_of table) [] r room p)
        q

  -- What a call leaves behind: it fails and the stored table is as it was; or it returns 0, and the
  -- client reads its new version from the table, and every other client what the found text says.
  abbrev pub Writes : Option CString → Bool × Option CString → Type 0
  Writes stored (false, table') = table' ≡ stored
  Writes stored (true, table') =
      (get_current_version [] client true table' ≡ some version)
      × ((who : CString)
          → str_eq client who ≡ false
          → get_current_version [] who true table' ≡ get_current_version [] who true table)

  join_lines-Writes :
      (stored : Option CString) (rows : List CString)
      → Serves client version table rows
      → Writes stored (true, some (join_lines rows))
  join_lines-Writes stored rows s =
      let lines = read_lines-join_lines 255 rows s.2 in
      (
        read_table client (some (join_lines rows)) ∙ rw (lines, s.0) refl,
        λ who n.
            read_table who (some (join_lines rows))
            ∙ rw (lines, s.1 who n) refl
            ∙ sym (read_table who table),
      )

-- `write_version_file` installs a version for one client, however the calls go: it fails and leaves
-- the stored table, or the client reads the new version from it, and every other client what it reads
-- from the text that was found: the stored one where the table is read whole, none where it is not
-- opened, and the lines before the error where reading it fails. The last line of the text found is
-- ended, and it has 512 lines at most.
pub write_version_file-Writes :
    (client version : CString) (i : IsId client) (v : IsVersion version) (calls : Calls)
    (path : CString) (stored : Option CString) (ended : IsEnded (text_found calls.reading stored))
    → length (rows_of (text_found calls.reading stored)) ≤ max_rows
    → Writes client version i v
        (text_found calls.reading stored)
        ended
        stored
        (write_version_file calls path client version stored)
unfolding write_version_file
write_version_file-Writes client version i v calls path stored ended room =
    let table = text_found calls.reading stored in
    elim (Bool-cases (is_empty path || is_empty client || not calls.locks)) [
      | inl t ↦ rw (t, if◌then◌else◌) refl
      | inr t ↦ elim (Option-cases (next_rows client version table)) [
        | inl n ↦ rw (t, if◌then◌else◌, n) refl
        | inr (rows, n) ↦
            elim (Bool-cases
              (calls.opens && calls.puts && calls.syncs && calls.closes && calls.renames)) [
                | inr u ↦ rw (t, if◌then◌else◌, n, u) refl
                | inl u ↦
                    rw (t, if◌then◌else◌, n, u)
                      (join_lines-Writes client version i v table ended stored rows
                        (next_rows-Serves client version i v table ended room n))
              ]
      ]
    ]
