-- ===== src/Download/Tests.antt =====
-- Downloads at concrete inputs.
use distributed_software_upd.Prelude.{
  ◌≡◌, refl, sym, subst, ℕ, Bool, true, false, Option, none, some, List, [], ◌∷◌, ◌++◌, CString,
  codes, pos, inl, inr, length, arith, Bool-cases, ltb, if◌then◌else◌, replicate, decimal, str_eq,
  str_case_eq, split_at, has_byte, strtol, strtoull, append-nil,
}
use distributed_software_upd.Net.{moved, conn_read_all, read_loop, conn_write_all, write_loop, Conn}
use distributed_software_upd.Protocol.{
  msg_download_req, msg_data, msg_transfer_done, proto_recv, read_frame, get_u32_be, put_u32_be,
  header, proto_send_text, proto_send, send_payload,
}
use distributed_software_upd.Protocol.Fields.{kv_get, kv_get_u64, parts, find_field}
use distributed_software_upd.Protocol.Frames.{frame}
use distributed_software_upd.Version.{ver_is_valid, ver_parse, parse_part}
use distributed_software_upd.Sha256.{
  Reads, read_size, sha256_file_hex, update_byte, fill, put_bytes,
}
use distributed_software_upd.Sha256.Stream.{IsWhole, content}
use distributed_software_upd.Sha256.Compress.{transform}
use distributed_software_upd.VersionTable.Rows.{IsId, IsVersion}
use distributed_software_upd.VersionTable.Progress.{fine}
use distributed_software_upd.VersionTable.{write_version_file, next_rows, rewrite_rows}
use distributed_software_upd.Download.{
  with_conn, contents, set_file, goes_on, complete, Client, Round, Update, receive_loop, round_of,
  take_data, take_done,
}
use distributed_software_upd.Download.Receive.{
  drop_long_part, update_of, Settings, Events, parse_meta, chunk_of, final_path_of, record_version,
  install, flush_part, after_request, download, offered, receive_update,
}
use distributed_software_upd.Download.Elsewhere.{is_success}
use distributed_software_upd.Download.Checksum.{ReadsFile}
use distributed_software_upd.Download.Install.{Outcome}
use distributed_software_upd.Download.Safety.{
  IsApart, Updated, installed_path, update, receive_update-Outcome, receive_update-Updated,
}

abbrev abc_sha : CString
abc_sha = codes "ba7816bf8f01cfea414140de5dae2223b00361a396177a9cb410ff61f20015ad"

abbrev meta : CString
meta = codes "ver=2.0.0;size=3;chunk=4096;sha256=" ++ abc_sha

abbrev settings : Settings
settings = record { client_id = codes "alice"; download_dir = codes "d"; version_file = codes "t" }

abbrev calm_round : Round
calm_round = record { pause = false; waits = []; stop = false; stop_late = false; writes = 4096 }

-- A file of less than a read is read at once.
abbrev short_reads : List ℕ → Option Reads
short_reads bytes =
    if ltb (length bytes) read_size
    then some (record { chunks = bytes ∷ []; failed = false })
    else none

short_reads-ReadsFile : ReadsFile short_reads
short_reads-ReadsFile bytes r h f = elim (Bool-cases (ltb (length bytes) read_size)) [
  | inr t ↦ absurd (cc (rw (t, if◌then◌else◌) at h))
  | inl t ↦
      let e : record { chunks = bytes ∷ []; failed = false } ≡ r =
        cc (rw (t, if◌then◌else◌) at h) in
      subst (λ x. IsWhole x.chunks × (content x.chunks ≡ bytes)) e (ground arith, append-nil bytes)
]

abbrev events : Events
events = record {
  stop = false;
  opens = true;
  meta_opens = true;
  allocates = true;
  pause_rounds = 100;
  rounds = calm_round ∷ (calm_round ∷ []);
  flush_keeps = none;
  reads = short_reads;
  renames = true;
  table = fine;
}

abbrev client : Client
client = record {
  conn = record {
    fd = pos 5;
    ssl = true;
    calls = replicate 12 (moved 100);
    incoming =
        frame msg_data 1 (codes "abc") ++ frame msg_transfer_done 0 (codes "sha256=" ++ abc_sha);
    outgoing = [];
  };
  disk = λ _. none;
  is_paused = false;
  resume_retry_active = true;
}

parsed : parse_meta meta ≡ some (codes "2.0.0", abc_sha)
unfolding parse_meta kv_get parts find_field ver_is_valid ver_parse parse_part strtol str_eq
    split_at
parsed = refl

apart :
    IsApart settings
      (update settings events meta (codes "2.0.0") abc_sha parsed)
      (installed_path settings events meta (codes "2.0.0") abc_sha parsed)
unfolding final_path_of str_eq
apart = record { other_final = refl; other_part = refl; other_resume = refl }

abc_hashed :
    sha256_file_hex (some (record { chunks = codes "abc" ∷ []; failed = false })) ≡ some abc_sha
unfolding sha256_file_hex update_byte fill put_bytes transform
abc_hashed = refl

abbrev target : CString
target = codes "d/app-2.0.0.bin"

abbrev final_client : Bool × Conn
final_client = proto_send_text client.conn msg_download_req (codes "offset=0")

abbrev asked : Client
asked = record client {
  conn = final_client.1;
  disk = set_file (target ++ codes ".part") (some []) client.disk;
}

abbrev u : Update
u = update_of events meta target (codes "2.0.0") abc_sha

sends : final_client.0 ≡ true
unfolding proto_send_text proto_send send_payload header put_u32_be conn_write_all write_loop
sends = refl

first_round : (w : Client) × (round_of u 100 calm_round 0 asked ≡ goes_on 3 w)
unfolding round_of take_data take_done proto_recv read_frame get_u32_be put_u32_be header
    conn_read_all read_loop proto_send_text proto_send send_payload conn_write_all write_loop
    chunk_of kv_get_u64 kv_get parts find_field str_eq split_at strtoull
first_round = (_, refl)

second_round : (w : Client) × (round_of u 100 calm_round 3 first_round.0 ≡ complete w)
unfolding first_round round_of take_data take_done proto_recv read_frame get_u32_be put_u32_be
    header conn_read_all read_loop proto_send_text proto_send send_payload conn_write_all write_loop
    chunk_of kv_get_u64 kv_get parts find_field str_eq str_case_eq split_at strtoull
second_round = (_, refl)

receives : receive_loop u 100 events.rounds 0 asked ≡ inr second_round.0
unfolding receive_loop
receives = rw (first_round.1, receive_loop, second_round.1) refl

installs : is_success (install settings events u target second_round.0).0 ≡ true
unfolding first_round second_round install record_version write_version_file next_rows rewrite_rows
    str_eq str_case_eq has_byte
installs = rw (abc_hashed) refl

requests :
    is_success
      (after_request settings events u target 0 (true, record client { conn = final_client.1 })).0
    ≡ true
unfolding after_request flush_part
requests = rw (receives) installs

no_long_part : drop_long_part u client ≡ client
unfolding kv_get_u64 kv_get parts find_field str_eq split_at strtoull
no_long_part = refl

downloads : is_success (download settings events u target client).0 ≡ true
unfolding download decimal kv_get_u64 proto_send_text kv_get conn_write_all split_at header str_eq
    strtoull
downloads =
    subst
      (λ c.
        is_success
          (after_request settings events u target (length (contents (c.disk u.part_path)))
            (with_conn c (proto_send_text c.conn msg_download_req (codes "offset=0")))).0
        ≡ true)
      (sym no_long_part)
      (subst
        (λ b.
          is_success
            (after_request settings events u target 0
              (b, record client { conn = final_client.1 })).0
          ≡ true)
        (sym sends) requests)

offers : is_success (offered settings events meta client (some (codes "2.0.0", abc_sha))).0 ≡ true
unfolding offered final_path_of
offers = downloads

succeeds : is_success (receive_update settings events meta client).0 ≡ true
unfolding receive_update
succeeds =
    subst (λ o. is_success (offered settings events meta client o).0 ≡ true) (sym parsed) offers

receive_update-Outcome_example :
    Outcome settings fine
      (update settings events meta (codes "2.0.0") abc_sha parsed)
      (installed_path settings events meta (codes "2.0.0") abc_sha parsed)
      client.disk
      (receive_update settings events meta client)
receive_update-Outcome_example =
    receive_update-Outcome settings events meta (codes "2.0.0") abc_sha parsed client apart
      short_reads-ReadsFile

alice-IsId : IsId settings.client_id
unfolding has_byte
alice-IsId = record {
  word = (refl, (refl, (refl, (refl, (refl, tt)))));
  plain = refl;
  named = refl;
  fits = omega arith;
}

two-IsVersion : IsVersion (codes "2.0.0")
unfolding ver_is_valid ver_parse parse_part strtol
two-IsVersion = record {
  word = (refl, (refl, (refl, (refl, (refl, tt)))));
  valid = refl;
  fits = omega arith;
}

receive_update-Updated_example :
    Updated settings events meta
      (codes "2.0.0")
      abc_sha
      parsed
      abc_sha
      client
      (receive_update settings events meta client).1
receive_update-Updated_example =
    receive_update-Updated settings events meta (codes "2.0.0") abc_sha parsed client apart
      short_reads-ReadsFile alice-IsId two-IsVersion tt (omega arith) succeeds
