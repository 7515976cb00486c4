-- ===== src/Protocol/Tests.antt =====
-- Frames and fields at concrete inputs.
use distributed_software_upd.Prelude.{
  ℕ, ◌≡◌, refl, true, some, List, [], ◌∷◌, ◌++◌, CString, codes, length, pos, arith, decimal,
  str_eq, split_at, has_byte, strtoull, replicate,
}
use distributed_software_upd.Net.{Conn, moved, conn_write_all, conn_read_all}
use distributed_software_upd.Protocol.{header, msg_auth, proto_send, proto_recv, recv_ok, recv_bad}
use distributed_software_upd.Protocol.Frames.{frame, Received, proto_recv-frame}
use distributed_software_upd.Protocol.RoundTrip.{proto_recv-proto_send, InBounds, proto_recv_bounds}
use distributed_software_upd.Protocol.Fields.{kv_get, kv_get_u64}
use distributed_software_upd.Protocol.Fields.Laws.{
  print_fields, IsPlain, kv_get-print_fields, kv_get_u64-decimal,
}

abbrev sender : Conn
sender = record {
  fd = pos 4;
  ssl = true;
  calls = moved 5 ∷ moved 99 ∷ moved 99 ∷ [];
  incoming = [];
  outgoing = [];
}

abbrev hello_bytes : List ℕ
hello_bytes = codes "id=c1"

abbrev calls_27 : Conn → Conn
calls_27 c = record c { calls = replicate 27 (moved 3) }

-- The other end of `sender`, after the frame was sent.
abbrev receiver : Conn
receiver = record {
  fd = pos 9;
  ssl = true;
  calls = replicate 17 (moved 3);
  incoming = frame msg_auth 0 hello_bytes ++ 1 ∷ 2 ∷ [];
  outgoing = [];
}

sends :
    (proto_send sender msg_auth 0 (some hello_bytes) 5).1.outgoing
    ≡ 0x55 ∷ 0x50 ∷ 0x44 ∷ 0x54 ∷ 1 ∷ 2 ∷ 0 ∷ 0 ∷ 0 ∷ 0 ∷ 0 ∷ 5 ∷ hello_bytes
unfolding proto_send conn_write_all header
sends = refl

receives : (proto_recv receiver 1025 0).0 ≡ recv_ok msg_auth 0 hello_bytes
unfolding proto_recv conn_read_all header
receives = refl

refuses_magic : (proto_recv (record receiver { incoming = replicate 12 0 }) 1025 0).0 ≡ recv_bad
unfolding proto_recv conn_read_all header
refuses_magic = refl

reads_field : kv_get (codes "ver=1.4.0;size=42;size=7") (codes "size") 64 ≡ some (codes "42")
unfolding kv_get str_eq split_at
reads_field = refl

-- A key that is the front of another is no match for it.
reads_whole_key : kv_get (codes "chunks=3;chunk=9") (codes "chunk") 64 ≡ some (codes "9")
unfolding kv_get str_eq split_at
reads_whole_key = refl

-- A field with no value is the number 0, and not the fallback.
reads_empty_number : kv_get_u64 (codes "offset=;x=1") (codes "offset") 99 ≡ 0
unfolding kv_get_u64 kv_get str_eq split_at strtoull
reads_empty_number = refl

sends_all : (proto_send sender msg_auth 0 (some hello_bytes) (length hello_bytes)).0 ≡ true
unfolding proto_send conn_write_all header
sends_all = refl

proto_recv-frame_example :
    Received msg_auth 0 hello_bytes (1 ∷ 2 ∷ []) 0 (proto_recv receiver 1025 0)
proto_recv-frame_example =
    proto_recv-frame receiver msg_auth 0 hello_bytes (1 ∷ 2 ∷ []) 1025 0 0 refl (omega arith)
      (omega arith) (omega arith) refl tt

sent_bytes :
    (proto_send sender msg_auth 0 (some hello_bytes) (length hello_bytes)).1.outgoing
    ≡ frame msg_auth 0 hello_bytes
unfolding proto_send conn_write_all header
sent_bytes = refl

proto_recv-proto_send_example :
    Received msg_auth 0 hello_bytes (1 ∷ 2 ∷ []) 0 (proto_recv receiver 1025 0)
proto_recv-proto_send_example =
    proto_recv-proto_send sender receiver msg_auth 0 hello_bytes (1 ∷ 2 ∷ []) 1025 0 0 refl
      (omega arith) (omega arith) (omega arith) refl sends_all (rw sent_bytes refl) tt

proto_recv_bounds_example : InBounds 1025 0 (proto_recv receiver 1025 0).0
proto_recv_bounds_example = proto_recv_bounds receiver 1025 0

abbrev meta_fields : List (CString × CString)
meta_fields = (codes "ver", codes "1.4.0") ∷ (codes "size", decimal 2_097_152) ∷ []

meta_fields-IsPlain : IsPlain meta_fields
unfolding has_byte decimal
meta_fields-IsPlain = ((refl, refl, refl), ((refl, refl, refl), tt))

kv_get-print_fields_example :
    kv_get (print_fields meta_fields) (codes "ver") 32 ≡ some (codes "1.4.0")
unfolding str_eq
kv_get-print_fields_example =
    kv_get-print_fields meta_fields (codes "ver") 32 meta_fields-IsPlain (omega arith)

kv_get_u64-decimal_example : kv_get_u64 (print_fields meta_fields) (codes "size") 0 ≡ 2_097_152
unfolding str_eq
kv_get_u64-decimal_example =
    kv_get_u64-decimal meta_fields (codes "size") 2_097_152 0 meta_fields-IsPlain (omega arith) refl
