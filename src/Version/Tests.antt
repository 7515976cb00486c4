-- ===== src/Version/Tests.antt =====
-- Versions at concrete inputs.
use distributed_software_upd.Prelude.{
  ◌≡◌, refl, ◌↔◌, some, codes, pos, negsuc, arith, strtol, false,
}
use distributed_software_upd.Version.{
  SemVer, ver_parse, parse_part, ver_compare, ver_compare_text, ver_is_valid,
}
use distributed_software_upd.Version.Order.{Older, ver_compare_lem}
use distributed_software_upd.Version.RoundTrip.{ver_print, ver_parse-ver_print}

abbrev v1_4_0 : SemVer
v1_4_0 = record { major = 1; minor = 4; patch = 0 }

abbrev v1_10_0 : SemVer
v1_10_0 = record { major = 1; minor = 10; patch = 0 }

abbrev v2_0_7 : SemVer
v2_0_7 = record { major = 2; minor = 0; patch = 7 }

parses : ver_parse (codes "1.10.0") ≡ some v1_10_0
unfolding ver_parse parse_part strtol
parses = refl

refuses_suffix : ver_is_valid (codes "1.10.0-rc1") ≡ false
unfolding ver_is_valid ver_parse parse_part strtol
refuses_suffix = refl

refuses_sign : ver_is_valid (codes "1.-1.0") ≡ false
unfolding ver_is_valid ver_parse parse_part strtol
refuses_sign = refl

compares : ver_compare_text (codes "1.4.0") (codes "1.10.0") ≡ some (negsuc 0)
unfolding ver_compare_text ver_parse parse_part strtol ver_compare
compares = refl

ver_compare_lem_example :
    ((ver_compare v1_4_0 v1_10_0 ≡ negsuc 0) ↔ Older v1_4_0 v1_10_0)
    × ((ver_compare v1_4_0 v1_10_0 ≡ pos 1) ↔ Older v1_10_0 v1_4_0)
    × ((ver_compare v1_4_0 v1_10_0 ≡ pos 0) ↔ (v1_4_0 ≡ v1_10_0))
ver_compare_lem_example = ver_compare_lem v1_4_0 v1_10_0

ver_parse-ver_print_example : ver_parse (ver_print v2_0_7) ≡ some v2_0_7
ver_parse-ver_print_example = ver_parse-ver_print v2_0_7 (omega arith) (omega arith) (omega arith)
