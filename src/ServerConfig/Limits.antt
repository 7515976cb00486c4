-- ===== src/ServerConfig/Limits.antt =====
-- The settings are fit for the parts that use them.
use distributed_software_upd.Prelude.{
  zero, suc, ◌≡◌, refl, ap, subst, true, Option, none, some, >>=-eq-some, codes, ℤ, pos, negsuc,
  arith,
}
use distributed_software_upd.Config.{Cfg, File, cfg_load, cfg_get_int_range}
use distributed_software_upd.Config.Numbers.{Between, cfg_get_int_range_bounds}
use distributed_software_upd.ThreadPool.{Queue, init}
use distributed_software_upd.ThreadPool.Invariant.{IsValid, init-IsValid}
use distributed_software_upd.Package.{min_chunk_size, max_chunk_size}
use distributed_software_upd.ServerConfig.{Numbers, ServerConfig, read_numbers, server_config_load}

-- The numbers are within the limits of the ports, the threads, the queue, a chunk and the times.
pub record AreUsable (n : Numbers) : Type 0 where
  pub port_in : Between 1024 65535 n.port
  pub workers_in : Between 1 256 n.max_workers
  pub backlog_in : Between 1 1024 n.accept_backlog
  pub capacity_in : Between 1 4096 n.queue_capacity
  pub chunk_in : Between min_chunk_size max_chunk_size n.chunk_size
  pub timeout_in : Between 1 600 n.client_timeout_sec
  pub hold_in : Between 1 600 n.pause_hold_timeout_sec

read_numbers-AreUsable : (cfg : Cfg) {n : Numbers} → read_numbers cfg ≡ some n → AreUsable n
unfolding read_numbers
read_numbers-AreUsable cfg {n} h =
    let (a, ea, ha) =
      >>=-eq-some (cfg_get_int_range cfg (codes "PORT") (pos 5500) (pos 1024) (pos 65535)) _ h in
    let (b, eb, hb) =
      >>=-eq-some (cfg_get_int_range cfg (codes "MAX_WORKERS") (pos 16) (pos 1) (pos 256)) _ ha in
    let (c, ec, hc) =
      >>=-eq-some (cfg_get_int_range cfg (codes "ACCEPT_BACKLOG") (pos 64) (pos 1) (pos 1024)) _
        hb in
    let (d, ed, hd) =
      >>=-eq-some (cfg_get_int_range cfg (codes "QUEUE_CAPACITY") (pos 128) (pos 1) (pos 4096)) _
        hc in
    let (e, ee, he) =
      >>=-eq-some
        (cfg_get_int_range cfg (codes "CHUNK_SIZE") (pos 65536) (pos 4096) (pos 0x10_0000)) _ hd in
    let (f, ef, hf) =
      >>=-eq-some (cfg_get_int_range cfg (codes "CLIENT_TIMEOUT_SEC") (pos 30) (pos 1) (pos 600)) _
        he in
    let (g, eg, hg) =
      >>=-eq-some (cfg_get_int_range cfg (codes "PAUSE_HOLD_TIMEOUT_SEC") (pos 5) (pos 1) (pos 600))
        _ hf in
    let same : record {
      port = a;
      max_workers = b;
      accept_backlog = c;
      queue_capacity = d;
      chunk_size = e;
      client_timeout_sec = f;
      pause_hold_timeout_sec = g;
    }
        ≡ n =
      cc in
    subst AreUsable same (record {
      port_in = cfg_get_int_range_bounds cfg (codes "PORT") 5500 1024 65535 (omega arith) ea;
      workers_in = cfg_get_int_range_bounds cfg (codes "MAX_WORKERS") 16 1 256 (omega arith) eb;
      backlog_in = cfg_get_int_range_bounds cfg (codes "ACCEPT_BACKLOG") 64 1 1024 (omega arith) ec;
      capacity_in =
          cfg_get_int_range_bounds cfg (codes "QUEUE_CAPACITY") 128 1 4096 (omega arith) ed;
      chunk_in =
          cfg_get_int_range_bounds cfg (codes "CHUNK_SIZE") 65536 4096 0x10_0000 (omega arith) ee;
      timeout_in =
          cfg_get_int_range_bounds cfg (codes "CLIENT_TIMEOUT_SEC") 30 1 600 (omega arith) ef;
      hold_in =
          cfg_get_int_range_bounds cfg (codes "PAUSE_HOLD_TIMEOUT_SEC") 5 1 600 (omega arith) eg;
    })

-- A capacity in its limits gives a queue.
capacity-init :
    (capacity : ℤ)
    → Between 1 4096 capacity
    → (q : Queue) × (init true capacity ≡ some q) × IsValid q
unfolding init
capacity-init (pos zero) b = absurd (omega (arith, b.0))
capacity-init (pos (suc n)) b = let (v, _, _) = init-IsValid true (pos (suc n)) refl in (_, refl, v)
capacity-init (negsuc n) b = absurd b

-- A configuration that the server loads is usable: every number is within its limits, those of the
-- chunk are the ones that `pkg_stream_file` wants, and `tpq_init` makes a valid queue of the capacity, where there is
-- memory.
pub server_config_load-AreUsable :
    (file : Option File) {s : ServerConfig}
    → server_config_load file ≡ some s
    → AreUsable s.numbers
      × ((q : Queue) × (init true s.numbers.queue_capacity ≡ some q) × IsValid q)
unfolding server_config_load
server_config_load-AreUsable file {s} h =
    let (cfg, _, hc) = >>=-eq-some (cfg_load file) _ h in
    let (n, e, hn) = >>=-eq-some (read_numbers cfg) _ hc in
    let same : n ≡ s.numbers = ap numbers_of hn in
    let u = subst AreUsable same (read_numbers-AreUsable cfg e) in
    (u, capacity-init s.numbers.queue_capacity u.capacity_in)
  where
    numbers_of : Option ServerConfig → Numbers
    numbers_of none = s.numbers
    numbers_of (some c) = c.numbers
