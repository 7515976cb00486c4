-- ===== src/ServerConfig.antt =====
-- Project_3/Project_3/src/server/server_main.c, `server_config_load`: the server's settings from the text of its
-- configuration file.
pub mod Limits
mod Tests
use distributed_software_upd.Prelude.{
  ℕ, Bool, true, Option, none, some, List, [], ◌>>=◌, CString, codes, ℤ, pos,
}
use distributed_software_upd.Config.{Cfg, File, cfg_load, cfg_get, cfg_get_int_range, cfg_copy_str}
use distributed_software_upd.Logger.{LogLevel, log_level_from_string}

-- The numbers of `server_config_t` that the file sets.
pub record Numbers : Type 0 where
  pub port : ℤ
  pub max_workers : ℤ
  pub accept_backlog : ℤ
  pub queue_capacity : ℤ
  pub chunk_size : ℤ
  pub client_timeout_sec : ℤ
  pub pause_hold_timeout_sec : ℤ

-- `server_config_t`
pub record ServerConfig : Type 0 where
  pub numbers : Numbers
  pub packet_delay_us : ℕ
  pub enable_gui : Bool
  pub enable_tls : Bool
  pub manifest_path : CString
  pub package_dir : CString
  pub log_file : CString
  pub tls_cert : CString
  pub tls_key : CString
  pub ca_cert : CString
  pub client_registry : CString
  pub log_level : LogLevel

unfoldable pub read_numbers : Cfg → Option Numbers
read_numbers cfg = do
  port ← cfg_get_int_range cfg (codes "PORT") (pos 5500) (pos 1024) (pos 65535)
  max_workers ← cfg_get_int_range cfg (codes "MAX_WORKERS") (pos 16) (pos 1) (pos 256)
  accept_backlog ← cfg_get_int_range cfg (codes "ACCEPT_BACKLOG") (pos 64) (pos 1) (pos 1024)
  queue_capacity ← cfg_get_int_range cfg (codes "QUEUE_CAPACITY") (pos 128) (pos 1) (pos 4096)
  chunk_size ← cfg_get_int_range cfg (codes "CHUNK_SIZE") (pos 65536) (pos 4096) (pos 0x10_0000)
  client_timeout_sec ← cfg_get_int_range cfg (codes "CLIENT_TIMEOUT_SEC") (pos 30) (pos 1) (pos 600)
  pause_hold_timeout_sec ←
      cfg_get_int_range cfg (codes "PAUSE_HOLD_TIMEOUT_SEC") (pos 5) (pos 1) (pos 600)
  some (record {
    port = port;
    max_workers = max_workers;
    accept_backlog = accept_backlog;
    queue_capacity = queue_capacity;
    chunk_size = chunk_size;
    client_timeout_sec = client_timeout_sec;
    pause_hold_timeout_sec = pause_hold_timeout_sec;
  })

unfoldable pub with_numbers : Cfg → Numbers → ServerConfig
with_numbers cfg numbers = record {
  numbers = numbers;
  packet_delay_us = 40000;
  enable_gui = true;
  enable_tls = true;
  manifest_path = cfg_copy_str cfg (codes "MANIFEST_PATH") (codes "./config/manifest.conf") 256;
  package_dir = cfg_copy_str cfg (codes "PACKAGE_DIR") (codes "./packages") 256;
  log_file = cfg_copy_str cfg (codes "LOG_FILE") (codes "./logs/server.log") 256;
  tls_cert = cfg_copy_str cfg (codes "TLS_CERT") (codes "./config/server.crt") 256;
  tls_key = cfg_copy_str cfg (codes "TLS_KEY") (codes "./config/server.key") 256;
  ca_cert = cfg_copy_str cfg (codes "CA_CERT") (codes "./config/ca.crt") 256;
  client_registry = cfg_copy_str cfg (codes "CLIENT_REGISTRY") (codes "./config/clients.keys") 256;
  log_level = log_level_from_string (cfg_get cfg (codes "LOG_LEVEL") (some (codes "INFO")));
}

-- `none` is the return of -1.
unfoldable pub server_config_load : Option File → Option ServerConfig
unfolding read_numbers with_numbers
server_config_load file = do
  cfg ← cfg_load file
  numbers ← read_numbers cfg
  some (with_numbers cfg numbers)
