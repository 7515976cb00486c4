-- ===== src/Worker/Tests.antt =====
-- A worker that takes one connection, and then waits.
use distributed_software_upd.Prelude.{
  refl, true, false, none, some, [], ◌∷◌, codes, arith, pos, inl,
}
use distributed_software_upd.Net.{moved}
use distributed_software_upd.ThreadPool.{Queue, zero_item}
use distributed_software_upd.ThreadPool.Invariant.{IsValid}
use distributed_software_upd.Stats.{stats_init}
use distributed_software_upd.VersionManager.{no_manifest}
use distributed_software_upd.Worker.{Server, Visit, worker_loop}
use distributed_software_upd.Worker.Laws.{Settles, worker_loop-Settles}

abbrev visit : Visit
visit = record {
  running = true;
  still_running = true;
  handshake = true;
  stream = record {
    fd = pos 0;
    ssl = false;
    calls = moved 100 ∷ (moved 100 ∷ []);
    incoming = [];
    outgoing = [];
  };
  selects = [];
  env = record {
    chunk_size = 4096;
    package_dir = codes "packages";
    client_info = [];
    cert_id = some (codes "alice");
    registry = some (codes "alice\n");
    manifest = no_manifest;
    file_at = λ _. record {
      stat = none;
      opens = true;
      seeks = true;
      allocates = true;
      content = [];
      reads = [];
    };
  };
}

abbrev one_waits : Queue
one_waits = record {
  items = zero_item ∷ record { fd = 7; client_info = codes "127.0.0.1:9 fd=7" } ∷ [];
  capacity = 2;
  head = 1;
  tail = 0;
  count = 1;
  shutdown = false;
}

one_waits-IsValid : IsValid one_waits
one_waits-IsValid = record {
  storage = omega arith;
  head_in = omega arith;
  count_in = omega arith;
  tail_at = refl;
}

abbrev server : Server
server = record { queue = one_waits; slots = [] ∷ ([] ∷ []); stats = stats_init 1; closed = [] }

worker_loop-Settles_example : Settles server (worker_loop true (visit ∷ (visit ∷ [])) server)
worker_loop-Settles_example =
    worker_loop-Settles true (visit ∷ (visit ∷ [])) server one_waits-IsValid
      (inl refl, (inl refl, tt))
