-- ===== src/VersionTable/Tests.antt =====
-- Version tables at concrete inputs.
use distributed_software_upd.Prelude.{
  ◌≤◌, ◌≡◌, refl, true, Option, none, some, [], CString, codes, arith, length, str_eq, cut_line,
  strip_leading, strip_trailing, trim_text, split_at, has_byte, read_lines, fgets, strtol,
  ends_line,
}
use distributed_software_upd.Version.{ver_is_valid, ver_parse, parse_part}
use distributed_software_upd.Auth.{member}
use distributed_software_upd.VersionTable.{
  Calls, unopened, fails_after, rows_of, get_current_version, write_version_file, next_rows,
  rewrite_rows, scan_rows, take_row, version_row_ignorable, found_version, parse_version_row,
  split_row, split_blank, check_row, remember_version_id,
}
use distributed_software_upd.VersionTable.Rows.{IsId, IsVersion}
use distributed_software_upd.VersionTable.Laws.{Writes, write_version_file-Writes}
use distributed_software_upd.VersionTable.Progress.{fine, write_version_file_succeeds}

abbrev alice : CString
alice = codes "alice"

abbrev two : CString
two = codes "2.0.0"

abbrev table : Option CString
table = some (codes "# id version\nbob = 1.0.0\nalice 1.0.0\n")

alice-IsId : IsId alice
unfolding has_byte
alice-IsId = record {
  word = (refl, (refl, (refl, (refl, (refl, tt)))));
  plain = refl;
  named = refl;
  fits = omega arith;
}

two-IsVersion : IsVersion two
unfolding ver_is_valid ver_parse parse_part strtol
two-IsVersion = record {
  word = (refl, (refl, (refl, (refl, (refl, tt)))));
  valid = refl;
  fits = omega arith;
}

reads_blanks : get_current_version [] alice true table ≡ some (codes "1.0.0")
unfolding get_current_version scan_rows take_row version_row_ignorable found_version
    parse_version_row split_row split_blank check_row remember_version_id member ver_is_valid
    ver_parse parse_part strtol str_eq cut_line strip_leading strip_trailing trim_text split_at
    has_byte read_lines fgets
reads_blanks = refl

replaces :
    write_version_file fine (codes "t") alice two table
    ≡ (true, some (codes "# id version\nbob = 1.0.0\nalice=2.0.0\n"))
unfolding write_version_file next_rows rewrite_rows take_row version_row_ignorable parse_version_row
    split_row split_blank check_row remember_version_id member ver_is_valid ver_parse parse_part
    strtol str_eq cut_line strip_leading strip_trailing trim_text split_at has_byte read_lines fgets
replaces = refl

-- The last line is not ended: the new row is written into it, and then no client can read the table.
joins_rows :
    write_version_file fine (codes "t") alice two (some (codes "bob=1.0.0"))
    ≡ (true, some (codes "bob=1.0.0alice=2.0.0\n"))
unfolding write_version_file next_rows rewrite_rows take_row version_row_ignorable parse_version_row
    split_row split_blank check_row remember_version_id member ver_is_valid ver_parse parse_part
    strtol str_eq cut_line strip_leading strip_trailing trim_text split_at has_byte read_lines fgets
joins_rows = refl

locks_out : get_current_version [] alice true (some (codes "bob=1.0.0alice=2.0.0\n")) ≡ none
unfolding get_current_version scan_rows take_row version_row_ignorable found_version
    parse_version_row split_row split_blank check_row remember_version_id member ver_is_valid
    ver_parse parse_part strtol str_eq cut_line strip_leading strip_trailing trim_text split_at
    has_byte read_lines fgets
locks_out = refl

-- A table that cannot be opened is taken for none: `bob` is lost, and the call returns 0.
abbrev unopened_calls : Calls
unopened_calls = record fine { reading = unopened }

loses_others :
    write_version_file unopened_calls (codes "t") alice two table
    ≡ (true, some (codes "alice=2.0.0\n"))
unfolding write_version_file next_rows rewrite_rows
loses_others = refl

-- After an error behind the comment, the rows that follow it are lost.
loses_rest :
    write_version_file (record fine { reading = fails_after 1 }) (codes "t") alice two table
    ≡ (true, some (codes "# id version\nalice=2.0.0\n"))
unfolding write_version_file next_rows rewrite_rows take_row version_row_ignorable parse_version_row
    split_row split_blank check_row remember_version_id member ver_is_valid ver_parse parse_part
    strtol str_eq cut_line strip_leading strip_trailing trim_text split_at has_byte read_lines fgets
loses_rest = refl

few_rows : length (rows_of table) ≤ 3
unfolding read_lines fgets
few_rows = omega arith

ended : ends_line (codes "# id version\nbob = 1.0.0\nalice 1.0.0\n") ≡ true
unfolding ends_line
ended = refl

write_version_file-Writes_example :
    Writes alice two alice-IsId two-IsVersion table ended table
      (write_version_file fine (codes "t") alice two table)
write_version_file-Writes_example =
    write_version_file-Writes alice two alice-IsId two-IsVersion fine (codes "t") table ended
      (omega (arith, few_rows))

write_version_file_succeeds_example : (write_version_file fine (codes "t") alice two table).0 ≡ true
write_version_file_succeeds_example =
    write_version_file_succeeds (codes "t") alice two table refl refl (omega (arith, few_rows))
      reads_blanks
