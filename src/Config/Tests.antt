-- ===== src/Config/Tests.antt =====
-- Configurations at concrete inputs.
use distributed_software_upd.Prelude.{
  ◌≡◌, refl, Option, none, some, [], ◌∷◌, codes, pos, true, false, cut_line, strip_leading,
  strip_trailing, split_at, str_eq, str_case_eq, strtol, strtoull, read_lines, fgets,
}
use distributed_software_upd.Config.{
  Cfg, File, cfg_load, load_lines, load_line, cfg_set, trim_ascii, find_entry, cfg_get, cfg_get_int,
  cfg_get_int_range, cfg_get_u64, cfg_get_bool, cfg_copy_str,
}
use distributed_software_upd.Config.Laws.{IsCfg, cfg_load-IsCfg}

abbrev ports : Cfg
ports =
    record { key = codes "PORT"; value = codes "9090" }
    ∷ (record { key = codes "TLS"; value = codes "Yes" } ∷ [])

abbrev ports_file : Option File
ports_file = some (record { text = codes "# server\nPORT = 9090\r\n\nTLS=Yes"; failed = false })

loads : cfg_load ports_file ≡ some ports
unfolding cfg_load load_lines load_line cfg_set trim_ascii find_entry cut_line strip_leading
    strip_trailing split_at str_eq read_lines fgets
loads = refl

refuses_twice : cfg_load (some (record { text = codes "A=1\nA=2"; failed = false })) ≡ none
unfolding cfg_load load_lines load_line cfg_set trim_ascii find_entry cut_line strip_leading
    strip_trailing split_at str_eq read_lines fgets
refuses_twice = refl

reads_number : cfg_get_int ports (codes "PORT") (pos 1) ≡ pos 9090
unfolding cfg_get_int cfg_get find_entry str_eq strtol
reads_number = refl

reads_unsigned : cfg_get_u64 ports (codes "PORT") 1 ≡ 9090
unfolding cfg_get_u64 cfg_get find_entry str_eq strtoull
reads_unsigned = refl

reads_truth : cfg_get_bool ports (codes "TLS") false ≡ true
unfolding cfg_get_bool cfg_get find_entry str_eq str_case_eq
reads_truth = refl

cuts_value : cfg_copy_str ports (codes "PORT") (codes "1") 3 ≡ codes "90"
unfolding cfg_copy_str cfg_get find_entry str_eq
cuts_value = refl

cfg_load-IsCfg_example : IsCfg ports
cfg_load-IsCfg_example = cfg_load-IsCfg ports_file loads

reads_in_range :
    cfg_get_int_range ports (codes "PORT") (pos 1) (pos 1) (pos 65535) ≡ some (pos 9090)
unfolding cfg_get_int_range cfg_get find_entry str_eq strtol
reads_in_range = refl
