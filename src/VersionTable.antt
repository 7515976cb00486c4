-- ===== src/VersionTable.antt =====
-- Project_3/Project_3/src/client/downloader.c: the table of the versions that the clients of one
-- machine have installed, a file of rows ID=VERSION or ID VERSION. The locks and the file system are
-- in what the calls return; the directories that are made first are left out.
pub mod Rows
pub mod Rewriting
pub mod Scanning
pub mod Laws
pub mod Progress
mod Tests
use distributed_software_upd.Prelude.{
  ℕ, zero, suc, ◌∷◌, ◌++◌, Bool, true, false, ◌&&◌, ◌||◌, not, Option, none, some, List, [],
  CString, codes, leb, ◌==◌, if◌then◌else◌, length, str_eq, is_empty, is_space, split_at,
  strip_leading, trim_text, copy_str, read_lines, cut_short, join_lines, take, ◌>>=◌,
}
use distributed_software_upd.Version.{ver_is_valid}
use distributed_software_upd.Auth.{member}

-- The text up to the first blank, and what stands behind that; `none` where there is no blank.
unfoldable pub split_blank : CString → Option (CString × CString)
split_blank [] = none
split_blank (c ∷ s) = elim (is_space c) [
  | true ↦ some ([], s)
  | false ↦ elim (split_blank s) [ none ↦ none | some (a, b) ↦ some (c ∷ a, b) ]
]

-- The two texts of a row, by `=` or else by blanks.
unfoldable pub split_row : CString → Option (CString × CString)
unfolding split_blank
split_row s = elim (split_at b'=' s) [
  | some (id, version) ↦ some (trim_text id, trim_text version)
  | none ↦ elim (split_blank s) [
    | some (id, rest) ↦ some (trim_text id, trim_text (strip_leading rest))
    | none ↦ none
  ]
]

-- An id is not empty, a version is valid, and both fit their arrays.
unfoldable pub check_row : CString → CString → Option (CString × CString)
check_row id version =
    if leb 64 (length id) || leb 32 (length version)
    then none
    else if is_empty (trim_text id) || not (ver_is_valid (trim_text version))
    then none
    else some (trim_text id, trim_text version)

abbrev is_comment : CString → Bool
is_comment [] = true
is_comment (c ∷ s) = c == b'#'

unfoldable pub version_row_ignorable : CString → Bool
version_row_ignorable line = is_comment (trim_text (copy_str 256 line))

-- `none` is the return of -1.
unfoldable pub parse_version_row : CString → Option (CString × CString)
unfolding split_row check_row
parse_version_row line =
    if is_comment (trim_text (copy_str 256 line))
    then none
    else (do (id, version) ← split_row (trim_text (copy_str 256 line)); check_row id version)

-- The ids seen so far, with this one; `none` is the return of -1.
unfoldable pub remember_version_id : List CString → CString → Option (List CString)
remember_version_id seen id =
    if is_empty id || member id seen || leb 512 (length seen)
    then none
    else some (seen ++ copy_str 64 id ∷ [])

-- A row that counts: its id and version, with the ids seen so far.
unfoldable pub take_row : List CString → CString → Option (CString × CString × List CString)
unfolding parse_version_row remember_version_id
take_row seen line = do
  (id, version) ← parse_version_row line
  seen' ← remember_version_id seen id
  some (id, version, seen')

unfoldable pub found_version : CString → CString → CString → Option CString → Option CString
found_version client id version found =
    if str_eq id client then some (copy_str 32 version) else found

-- The loop of `getCurrentVersion`. The outer `none` is the return of -1.
unfoldable pub scan_rows :
    CString → List CString → Option CString → List CString → Option (Option CString)
unfolding take_row version_row_ignorable found_version
scan_rows client seen found [] = some found
scan_rows client seen found (l ∷ ls) =
    if cut_short 255 l then none else elim (version_row_ignorable l) [
      | true ↦ scan_rows client seen found ls
      | false ↦ elim (take_row seen l) [
        | none ↦ none
        | some (id, version, seen') ↦
            scan_rows client seen' (found_version client id version found) ls
      ]
    ]

abbrev pub no_version : CString
no_version = codes "0.0.0"

abbrev pub version_or : Option CString → CString
version_or none = no_version
version_or (some v) = v

-- The version of the configuration, which counts if it is there. Then the table, if it can be locked
-- and opened: `table` is the text as it is read. `none` is the return of -1.
unfoldable pub get_current_version : CString → CString → Bool → Option CString → Option CString
unfolding scan_rows
get_current_version configured client locked table =
    if not (is_empty configured)
    then (if ver_is_valid (copy_str 32 configured) then some (copy_str 32 configured) else none)
    else if not locked
    then some no_version
    else elim table [
      | none ↦ some no_version
      | some text ↦ elim (scan_rows client [] none (read_lines 255 text)) [
        | none ↦ none
        | some found ↦ some (version_or found)
      ]
    ]

abbrev pub row_of : CString → CString → CString
row_of id version = copy_str 256 (id ++ (codes "=" ++ (version ++ codes "\n")))

abbrev pub new_row : CString → CString → CString → CString → CString
new_row client version id line = if str_eq id client then row_of client version else line

-- The reading loop of `write_version_file`, with the rows that there is room for: the rows with the
-- client's replaced, and whether it was.
unfoldable pub rewrite_rows :
    CString → CString → List CString → ℕ → List CString → Option (List CString × Bool)
unfolding take_row version_row_ignorable
rewrite_rows client version seen zero ls = some ([], false)
rewrite_rows client version seen (suc room) [] = some ([], false)
rewrite_rows client version seen (suc room) (l ∷ ls) =
    if cut_short 255 l then none else elim (version_row_ignorable l) [
      | true ↦ (do
        (rows, updated) ← rewrite_rows client version seen room ls
        some (l ∷ rows, updated))
      | false ↦ (do
        (id, old, seen') ← take_row seen l
        (rows, updated) ← rewrite_rows client version seen' room ls
        some (new_row client version id l ∷ rows, str_eq id client || updated))
    ]

abbrev pub max_rows : ℕ
max_rows = 512

abbrev pub add_row : CString → CString → List CString × Bool → Option (List CString)
add_row client version (rows, true) = some rows
add_row client version (rows, false) =
    if leb max_rows (length rows) then none else some (rows ++ row_of client version ∷ [])

abbrev pub rows_of : Option CString → List CString
rows_of none = []
rows_of (some text) = read_lines 255 text

-- The rows that are to be written, by the text that was found.
unfoldable pub next_rows : CString → CString → Option CString → Option (List CString)
unfolding rewrite_rows
next_rows client version table = do
  r ← rewrite_rows client version [] max_rows (rows_of table)
  add_row client version r

-- How the file is read: to its end; not at all, since `fopen` fails; or so many lines, and then `fgets`
-- meets an error, which looks like the end of the file.
pub data Reading : Type 0 where
  whole : Reading
  unopened : Reading
  fails_after : ℕ → Reading

-- The text that is read of the one that is stored; `none` where there is no file or it is not opened.
abbrev pub text_found : Reading → Option CString → Option CString
text_found whole stored = stored
text_found unopened stored = none
text_found (fails_after n) none = none
text_found (fails_after n) (some text) = some (join_lines (take n (read_lines 255 text)))

-- How the table is read, and whether the calls succeed: locking, opening the temporary file, every `fputs`, `fflush` with
-- `fsync`, `fclose`, and `rename`.
pub record Calls : Type 0 where
  pub locks : Bool
  pub reading : Reading
  pub opens : Bool
  pub puts : Bool
  pub syncs : Bool
  pub closes : Bool
  pub renames : Bool

-- The stored table after it; the flag is `true` for the return of 0. The rows are those that were
-- found, and the code does not ask whether they are all. The temporary file is renamed to the table or
-- removed.
unfoldable pub write_version_file :
    Calls → CString → CString → CString → Option CString → Bool × Option CString
unfolding next_rows
write_version_file calls path client version stored =
    if is_empty path || is_empty client || not calls.locks
    then (false, stored)
    else elim (next_rows client version (text_found calls.reading stored)) [
      | none ↦ (false, stored)
      | some rows ↦
          if calls.opens && calls.puts && calls.syncs && calls.closes && calls.renames
          then (true, some (join_lines rows))
          else (false, stored)
    ]
