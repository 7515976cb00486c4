-- ===== src/Download/TransferTests.antt =====
-- A transfer from the server to the client at a concrete input.
use distributed_software_upd.Package.{
  PackageFile, Transfer, timed_out, pkg_file_size, pkg_stream_file, open_and_stream, stream_loop,
  send_chunk, handle_pause_if_requested, recv_control_if_ready,
}
use distributed_software_upd.Download.Transfer.{IsQuiet, AreQuiet, Filled}
use distributed_software_upd.Download.Served.{receive_loop-pkg_stream_file}
use distributed_software_upd.Session.{c_text}
use distributed_software_upd.Net.Progress.{Lively}
use distributed_software_upd.Prelude.{
  ◌≡◌, refl, true, false, some, List, [], ◌∷◌, ◌++◌, CString, codes, pos, length, drop, arith,
  replicate, str_eq, str_case_eq, split_at,
}
use distributed_software_upd.Net.{moved, conn_write_all, write_loop}
use distributed_software_upd.Protocol.{
  msg_data, msg_transfer_done, put_u32_be, header, proto_send, send_payload,
}
use distributed_software_upd.Protocol.Fields.{kv_get, parts, find_field}
use distributed_software_upd.Protocol.Frames.{frame}
use distributed_software_upd.Download.{Client, Round, Update, receive_loop, same_sha}

abbrev abc_sha : CString
abc_sha = codes "ba7816bf8f01cfea414140de5dae2223b00361a396177a9cb410ff61f20015ad"

abbrev calm_round : Round
calm_round = record { pause = false; waits = []; stop = false; stop_late = false; writes = 4096 }

abbrev rounds3 : List Round
rounds3 = calm_round ∷ (calm_round ∷ (calm_round ∷ []))

-- The server streams three bytes, and the client ends with them in its part.
abbrev three_bytes : PackageFile
three_bytes = record {
  stat = some (true, 3);
  opens = true;
  seeks = true;
  allocates = true;
  content = codes "abc";
  reads = (9, false) ∷ [];
}

abbrev server : Transfer
server = record {
  channel = record {
    conn = record {
      fd = pos 7;
      ssl = true;
      calls = replicate 4 (moved 100);
      incoming = [];
      outgoing = codes "before";
    };
    selects = timed_out ∷ [];
  };
  bytes_sent = 0;
}

abbrev want3 : Update
want3 = record {
  version = codes "2.0.0";
  size = 3;
  sha = abc_sha;
  part_path = codes "p";
  chunk = 4096;
  meta_opens = true;
}

abbrev half : Client
half = record {
  conn = record {
    fd = pos 5;
    ssl = true;
    calls = replicate 100 (moved 1);
    incoming =
        frame msg_data 1 (codes "bc")
        ++ (frame msg_transfer_done 0 (codes "sha256=" ++ abc_sha) ++ []);
    outgoing = [];
  };
  disk = λ _. some (codes "a");
  is_paused = false;
  resume_retry_active = false;
}

sent_two :
    (pkg_stream_file three_bytes 1 4096 server).1.channel.conn.outgoing
    ≡ codes "before" ++ frame msg_data 1 (codes "bc")
unfolding pkg_stream_file open_and_stream stream_loop send_chunk handle_pause_if_requested
    recv_control_if_ready pkg_file_size proto_send send_payload conn_write_all write_loop header
    put_u32_be
sent_two = refl

sent_ok : (pkg_stream_file three_bytes 1 4096 server).0 ≡ true
unfolding pkg_stream_file open_and_stream stream_loop send_chunk handle_pause_if_requested
    recv_control_if_ready pkg_file_size proto_send send_payload conn_write_all write_loop header
    put_u32_be
sent_ok = refl

names_sha :
    same_sha abc_sha (kv_get (c_text (codes "sha256=" ++ abc_sha)) (codes "sha256") 65) ≡ true
unfolding kv_get parts find_field str_eq str_case_eq split_at
names_sha = refl

calm_rounds : AreQuiet 4096 rounds3
calm_rounds = (calm, (calm, (calm, tt)))
  where
    calm : IsQuiet 4096 calm_round
    calm = record { no_pause = refl; no_stop = refl; takes = omega arith }

wire :
    half.conn.incoming
    ≡ drop
        (length (codes "before"))
        (pkg_stream_file three_bytes 1 4096 server).1.channel.conn.outgoing
      ++ (frame msg_transfer_done 0 (codes "sha256=" ++ abc_sha) ++ [])
wire = rw sent_two refl

sized : pkg_file_size (some (true, 3)) ≡ some 3
unfolding pkg_file_size
sized = refl

lively : Lively true (replicate 100 (moved 1)) (length half.conn.incoming)
unfolding header put_u32_be
lively = tt

receive_loop-pkg_stream_file_example :
    Filled want3 (codes "abc") (receive_loop want3 100 rounds3 1 half)
receive_loop-pkg_stream_file_example =
    receive_loop-pkg_stream_file want3 three_bytes 1 server half 100 rounds3 0
      (codes "sha256=" ++ abc_sha) [] (omega arith) sized sent_ok wire lively refl (omega arith)
      names_sha calm_rounds (omega arith)
