-- ===== src/Download/Receive.antt =====
-- Project_3/Project_3/src/client/downloader.c, `receive_update`: one download from the server's answer to the
-- installed file. Directories, and the temporary and lock files of the version table, are left out.
use distributed_software_upd.Prelude.{
  ℕ, ◌+◌, ◌%◌, ◌^◌, ◌⊎◌, inl, inr, Bool, true, false, ◌&&◌, ◌>>=◌, not, Option, none, some, List,
  [], ◌++◌, CString, codes, ltb, leb, if◌then◌else◌, length, take, copy_str, decimal,
}
use distributed_software_upd.Protocol.{
  msg_download_req, msg_result, max_control_payload, proto_send_text, proto_recv,
}
use distributed_software_upd.Protocol.Fields.{kv_get, kv_get_u64}
use distributed_software_upd.Version.{ver_is_valid}
use distributed_software_upd.Sha256.{Reads, sha256_file_hex}
use distributed_software_upd.VersionTable.{Calls, write_version_file}
use distributed_software_upd.Download.{
  Attempt, success, retry, reconnect, fatal, paused, set_file, contents, Client, Update,
  resume_path, save_interrupted_download, with_conn, Round, same_sha, receive_loop,
}

-- The client's settings that a download reads.
pub record Settings : Type 0 where
  pub client_id : CString
  pub download_dir : CString
  pub version_file : CString

-- What an attempt meets: a request to stop while the request is sent; whether the part file and the
-- file beside it open and memory is given; the rounds of the receiving loop, with the time of a
-- pause; how many bytes of the part are kept where the flush fails; the reads of a file with some
-- content; the call of `rename`, and those on the version table.
pub record Events : Type 0 where
  pub stop : Bool
  pub opens : Bool
  pub meta_opens : Bool
  pub allocates : Bool
  pub pause_rounds : ℕ
  pub rounds : List Round
  pub flush_keeps : Option ℕ
  pub reads : List ℕ → Option Reads
  pub renames : Bool
  pub table : Calls

-- The version and the checksum of the message UPDATE_AVAILABLE.
unfoldable pub parse_meta : CString → Option (CString × CString)
parse_meta meta = do
  latest ← kv_get meta (codes "ver") 32
  sha ← kv_get meta (codes "sha256") 65
  if ver_is_valid latest then some (latest, sha) else none

-- An `int` of the low 32 bits: half of them are negative. It is kept within the limits.
unfoldable pub chunk_of : ℕ → ℕ
chunk_of advertised =
    let low = advertised % 2 ^ 32 in
    if leb (2 ^ 31) low
    then 4096
    else if ltb low 4096
    then 4096
    else if ltb 0x10_0000 low
    then 0x10_0000
    else low

unfoldable pub final_path_of : Settings → CString → CString
final_path_of s latest = s.download_dir ++ (codes "/app-" ++ (latest ++ codes ".bin"))

abbrev pub update_of : Events → CString → CString → CString → CString → Update
update_of e meta final latest sha = record {
  version = latest;
  size = kv_get_u64 meta (codes "size") 0;
  sha = sha;
  part_path = final ++ codes ".part";
  chunk = chunk_of (kv_get_u64 meta (codes "chunk") 65536);
  meta_opens = e.meta_opens;
}

-- A part that is longer than the whole is removed.
abbrev pub drop_long_part : Update → Client → Client
drop_long_part u c =
    if ltb u.size (length (contents (c.disk u.part_path)))
    then record c { disk = set_file u.part_path none c.disk }
    else c

-- Opened with "wb" at the start, or with "ab".
abbrev pub open_part : Update → ℕ → Client → Client
open_part u offset c =
    if ltb 0 offset then c else record c { disk = set_file u.part_path (some []) c.disk }

abbrev pub file_hex : Events → Option (List ℕ) → Option CString
file_hex e none = none
file_hex e (some bytes) = sha256_file_hex (e.reads bytes)

-- The version goes into the client's table, and what was kept to resume is removed.
unfoldable pub record_version : Settings → Events → Update → Client → Attempt × Client
record_version s e u c =
    let (ok, table) =
      write_version_file e.table s.version_file s.client_id u.version (c.disk s.version_file) in
    let c' : Client = record c { disk = set_file s.version_file table c.disk } in
    if ok && ltb (length (resume_path u)) 512
    then (
      success,
      record c' { disk = set_file (resume_path u) none c'.disk; resume_retry_active = false },
    )
    else (fatal, c')

-- RESULT is sent and an answer awaited, whether these succeed or not.
abbrev pub report : Client → Client
report c =
    let sent = (with_conn c (proto_send_text c.conn msg_result (codes "status=ok"))).1 in
    record sent { conn = (proto_recv sent.conn (max_control_payload + 1) 0).1 }

abbrev pub report_failure : Client → Client
report_failure c =
    (with_conn c (proto_send_text c.conn msg_result (codes "status=checksum_fail"))).1

-- The part is complete: where its checksum is right it becomes the installed file.
unfoldable pub install : Settings → Events → Update → CString → Client → Attempt × Client
unfolding record_version
install s e u final c =
    if not (same_sha u.sha (file_hex e (c.disk u.part_path)))
    then (retry, record (report_failure c) { disk = set_file u.part_path none c.disk })
    else if not e.renames
    then (fatal, c)
    else record_version s e u (
        report (record c {
          disk = set_file final (c.disk u.part_path) (set_file u.part_path none c.disk);
        }))

-- The flush keeps some bytes of the part where it fails.
abbrev pub flushed : Settings → Events → Update → CString → Client → Option ℕ → Attempt × Client
flushed s e u final c none = install s e u final c
flushed s e u final c (some n) = (
  retry,
  record c { disk = set_file u.part_path (some (take n (contents (c.disk u.part_path)))) c.disk },
)

-- All was received: the part is flushed to the disk.
unfoldable pub flush_part : Settings → Events → Update → CString → Client → Attempt × Client
unfolding install
flush_part s e u final c = flushed s e u final c e.flush_keeps

abbrev pub after_loop :
    Settings → Events → Update → CString → (Attempt × Client) ⊎ Client → Attempt × Client
after_loop s e u final (inl r) = r
after_loop s e u final (inr c) = flush_part s e u final c

-- The request for the bytes from `offset` on was sent, or was not.
unfoldable pub after_request :
    Settings → Events → Update → CString → ℕ → Bool × Client → Attempt × Client
unfolding flush_part receive_loop
after_request s e u final offset (false, c) =
    save_interrupted_download u offset (if e.stop then paused else reconnect) c
after_request s e u final offset (true, c) =
    if not e.opens
    then (fatal, c)
    else if not e.allocates
    then (fatal, open_part u offset c)
    else after_loop s e u final
        (receive_loop u e.pause_rounds e.rounds offset (open_part u offset c))

unfoldable pub download : Settings → Events → Update → CString → Client → Attempt × Client
unfolding after_request
download s e u final c =
    let c' = drop_long_part u c in
    let offset = length (contents (c'.disk u.part_path)) in
    after_request s e u final offset (
      with_conn c' (
        proto_send_text c'.conn msg_download_req
          (copy_str (max_control_payload + 1) (codes "offset=" ++ decimal offset))))

-- The fields of the message are there, or are not.
unfoldable pub offered :
    Settings → Events → CString → Client → Option (CString × CString) → Attempt × Client
unfolding download
offered s e meta c none = (fatal, c)
offered s e meta c (some (latest, sha)) =
    let final = final_path_of s latest in
    let u = update_of e meta final latest sha in
    if ltb (length final) 512 && ltb (length u.part_path) 512
    then download s e u final c
    else (fatal, c)

unfoldable pub receive_update : Settings → Events → CString → Client → Attempt × Client
unfolding offered parse_meta
receive_update s e meta c = offered s e meta c (parse_meta meta)
