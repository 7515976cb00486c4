-- ===== src/Package/Tests.antt =====
-- Packages at concrete inputs.
use distributed_software_upd.Prelude.{
  ◌<◌, ◌≤◌, ◌≡◌, refl, ℕ, true, false, none, some, [], ◌∷◌, ◌++◌, CString, codes, pos, drop, length,
  has_byte,
}
use distributed_software_upd.Net.{moved, conn_write_all, write_loop}
use distributed_software_upd.Protocol.{proto_send, send_payload, header, put_u32_be}
use distributed_software_upd.Package.{
  Transfer, PackageFile, timed_out, pkg_resolve_path, has_dots, pkg_file_size, pkg_stream_file,
  open_and_stream, stream_loop, send_chunk, handle_pause_if_requested, recv_control_if_ready,
  min_chunk_size, max_chunk_size,
}
use distributed_software_upd.Package.Paths.{base_name, pkg_resolve_path_safe}
use distributed_software_upd.Package.Stream.{IsStreamed, pkg_stream_file_lem}

abbrev pkg : CString
pkg = codes "pkg"

abbrev app : CString
app = codes "app.bin"

resolves : pkg_resolve_path pkg app 512 ≡ some (codes "pkg/app.bin")
unfolding pkg_resolve_path has_dots has_byte
resolves = refl

refuses_parent : pkg_resolve_path pkg (codes "..") 512 ≡ none
unfolding pkg_resolve_path has_dots has_byte
refuses_parent = refl

pkg_resolve_path_safe_example :
    (base_name (codes "pkg/app.bin") ≡ app)
    × (codes "pkg/app.bin" ≡ pkg ++ b'/' ∷ app)
    × (has_dots app ≡ false)
    × (length (codes "pkg/app.bin") < 512)
pkg_resolve_path_safe_example = pkg_resolve_path_safe pkg app 512 resolves

abbrev small_file : PackageFile
small_file = record {
  stat = some (true, 5);
  opens = true;
  seeks = true;
  allocates = true;
  content = codes "abcde";
  reads = (3, false) ∷ ((9, false) ∷ []);
}

abbrev ready : Transfer
ready = record {
  channel = record {
    conn = record {
      fd = pos 7;
      ssl = true;
      calls = moved 12 ∷ (moved 3 ∷ (moved 12 ∷ (moved 1 ∷ [])));
      incoming = [];
      outgoing = [];
    };
    selects = timed_out ∷ (timed_out ∷ []);
  };
  bytes_sent = 10;
}

streams : (pkg_stream_file small_file 1 4096 ready).0 ≡ true
unfolding pkg_stream_file open_and_stream stream_loop send_chunk handle_pause_if_requested
    recv_control_if_ready pkg_file_size proto_send send_payload conn_write_all write_loop header
    put_u32_be
streams = refl

pkg_stream_file_lem_example :
    (size : ℕ) × (pkg_file_size (some (true, 5)) ≡ some size)
    × (1 ≤ size)
    × (min_chunk_size ≤ 4096)
    × (4096 ≤ max_chunk_size)
    × IsStreamed size 4096 1
        (drop 1 (codes "abcde"))
        ready
        (pkg_stream_file small_file 1 4096 ready).1
pkg_stream_file_lem_example = pkg_stream_file_lem small_file 1 4096 ready streams
