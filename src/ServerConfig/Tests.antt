-- ===== src/ServerConfig/Tests.antt =====
-- A configuration that sets two numbers.
use distributed_software_upd.Prelude.{
  ◌≡◌, refl, Option, some, true, false, [], ◌∷◌, codes, pos, cut_line, strip_leading,
  strip_trailing, split_at, str_eq, strtol, read_lines, fgets,
}
use distributed_software_upd.Config.{
  Cfg, File, cfg_load, load_lines, load_line, cfg_set, trim_ascii, find_entry, cfg_get,
  cfg_get_int_range,
}
use distributed_software_upd.ThreadPool.{Queue, init}
use distributed_software_upd.ThreadPool.Invariant.{IsValid}
use distributed_software_upd.ServerConfig.{Numbers, read_numbers, with_numbers, server_config_load}
use distributed_software_upd.ServerConfig.Limits.{AreUsable, server_config_load-AreUsable}

abbrev settings : Cfg
settings =
    record { key = codes "PORT"; value = codes "9090" }
    ∷ (record { key = codes "MAX_WORKERS"; value = codes "4" } ∷ [])

abbrev file : Option File
file = some (record { text = codes "# server\nPORT = 9090\nMAX_WORKERS=4\n"; failed = false })

abbrev numbers : Numbers
numbers = record {
  port = pos 9090;
  max_workers = pos 4;
  accept_backlog = pos 64;
  queue_capacity = pos 128;
  chunk_size = pos 65536;
  client_timeout_sec = pos 30;
  pause_hold_timeout_sec = pos 5;
}

loads : cfg_load file ≡ some settings
unfolding cfg_load load_lines load_line cfg_set trim_ascii find_entry cut_line strip_leading
    strip_trailing split_at str_eq read_lines fgets
loads = refl

reads : read_numbers settings ≡ some numbers
unfolding read_numbers cfg_get_int_range cfg_get find_entry str_eq strtol
reads = refl

loaded : server_config_load file ≡ some (with_numbers settings numbers)
unfolding server_config_load
loaded = rw (loads, reads) refl

server_config_load-AreUsable_example :
    AreUsable numbers × ((q : Queue) × (init true (pos 128) ≡ some q) × IsValid q)
unfolding with_numbers
server_config_load-AreUsable_example = server_config_load-AreUsable file loaded
