-- ===== src/Download.antt =====
-- Project_3/Project_3/src/client/downloader.c: receiving an update. What the user interface shows and
-- the log lines are left out; what it asks for (pause, resume) comes with the rounds of the loops.
-- `unlink` removes its file.
pub mod Receive
pub mod Elsewhere
pub mod Checksum
pub mod Install
pub mod Safety
pub mod Transfer
pub mod Served
pub mod Resumes
pub mod Reconnects
mod Tests
mod TransferTests
use distributed_software_upd.Prelude.{
  ℕ, zero, suc, ◌+◌, ◌⊎◌, inl, inr, ◌-◌, ◌%◌, ◌^◌, min, Bool, true, false, ◌&&◌, ◌||◌, not, Option,
  none, some, List, [], ◌∷◌, ◌++◌, CString, codes, ltb, leb, ◌==◌, if◌then◌else◌, length, take,
  str_eq, str_case_eq, copy_str, decimal,
}
use distributed_software_upd.Net.{Conn}
use distributed_software_upd.Protocol.{
  MsgType, msg_data, msg_pause, msg_resume, msg_transfer_done, is_type, max_control_payload, Recv,
  recv_ok, recv_eof, recv_bad, recv_too_large, proto_send_text, proto_recv,
}
use distributed_software_upd.Protocol.Fields.{kv_get}
use distributed_software_upd.Session.{c_text}

-- `attempt_result_t`
pub data Attempt : Type 0 where
  success : Attempt
  retry : Attempt
  reconnect : Attempt
  resume_reconnect : Attempt
  fatal : Attempt
  paused : Attempt

-- The files at every path.
abbrev pub Disk : Type 0
Disk = CString → Option (List ℕ)

abbrev pub set_file : CString → Option (List ℕ) → Disk → Disk
set_file path v disk p = if str_eq p path then v else disk p

abbrev pub contents : Option (List ℕ) → List ℕ
contents none = []
contents (some bytes) = bytes

abbrev pub append_file : CString → List ℕ → Disk → Disk
append_file path bytes disk = set_file path (some (contents (disk path) ++ bytes)) disk

-- What an attempt changes: the connection, the files, and the two flags of the context.
pub record Client : Type 0 where
  pub conn : Conn
  pub disk : Disk
  pub is_paused : Bool
  pub resume_retry_active : Bool

-- What is downloaded: the message's version, size and checksum, the path of the part that is there,
-- the size of a chunk, and whether the file beside the part can be written.
pub record Update : Type 0 where
  pub version : CString
  pub size : ℕ
  pub sha : CString
  pub part_path : CString
  pub chunk : ℕ
  pub meta_opens : Bool

pub resume_text : Update → ℕ → CString
resume_text u offset =
    codes "version="
    ++ (u.version
        ++ (codes "\noffset="
            ++ (decimal offset
                ++ (codes "\ntotal_size="
                    ++ (decimal u.size
                        ++ (codes "\nsha256="
                            ++ (u.sha
                                ++ (codes "\npart_file=" ++ (u.part_path ++ codes "\n")))))))))

abbrev pub resume_path : Update → CString
resume_path u = u.part_path ++ codes ".resume"

-- Nothing is written where the path is too long or the file cannot be opened.
unfoldable pub write_resume_metadata : Update → ℕ → Disk → Disk
unfolding resume_text
write_resume_metadata u offset disk =
    if ltb (length (resume_path u)) 512 && u.meta_opens
    then set_file (resume_path u) (some (resume_text u offset)) disk
    else disk

abbrev mark : Attempt → Client → Client
mark success c = c
mark retry c = c
mark reconnect c = record c { resume_retry_active = true }
mark resume_reconnect c = c
mark fatal c = c
mark paused c = record c { is_paused = true }

-- The part stays, with what is needed to go on beside it.
unfoldable pub save_interrupted_download : Update → ℕ → Attempt → Client → Attempt × Client
unfolding write_resume_metadata
save_interrupted_download u offset result c =
    (result, mark result (record c { disk = write_resume_metadata u offset c.disk }))

-- What one test of a pause finds: whether the client is asked to stop, and whether to resume.
pub record Wait : Type 0 where
  pub stop : Bool
  pub resume : Bool

pub data Waited : Type 0 where
  resumed : Waited
  expired : Waited
  gave_up : Waited

abbrev pub with_conn : Client → Bool × Conn → Bool × Client
with_conn c (ok, conn) = (ok, record c { conn = conn })

abbrev pub after_resume : Bool × Client → Waited × Client
after_resume (true, c) = (resumed, c)
after_resume (false, c) = (expired, record c { resume_retry_active = true })

-- The returns 0, 1 and -1 of `wait_for_gui_resume_on_connection`, with the rounds of 100 ms that are
-- left. Behind the list nobody asks for anything.
unfoldable pub wait_for_gui_resume : ℕ → List Wait → Client → Waited × Client
wait_for_gui_resume zero ws c = (gave_up, record c { is_paused = true })
wait_for_gui_resume (suc rounds) [] c = (gave_up, record c { is_paused = true })
wait_for_gui_resume (suc rounds) (w ∷ ws) c = elim w.stop [
  | true ↦ (gave_up, record c { is_paused = true })
  | false ↦ elim w.resume [
    | true ↦ after_resume (with_conn c (proto_send_text c.conn msg_resume (codes "status=resume")))
    | false ↦ wait_for_gui_resume rounds ws c
  ]
]

-- What one round of the receiving loop finds: a request to pause, with the tests during the pause; a
-- request to stop, and one that comes while a frame is awaited; and the bytes that `fwrite` takes.
pub record Round : Type 0 where
  pub pause : Bool
  pub waits : List Wait
  pub stop : Bool
  pub stop_late : Bool
  pub writes : ℕ

-- A round ends the download, goes on, or has seen the end of the transfer.
pub data Next : Type 0 where
  ends : Attempt → Client → Next
  goes_on : ℕ → Client → Next
  complete : Client → Next

abbrev pub give : Attempt × Client → Next
give (a, c) = ends a c

abbrev pub after_pause : ℕ → Waited × Client → Next
after_pause received (resumed, c) = goes_on received c
after_pause received (expired, c) = ends resume_reconnect c
after_pause received (gave_up, c) = ends paused c

abbrev pub hold : ℕ → List Wait → ℕ → Bool × Client → Next
hold rounds ws received (false, c) = ends reconnect (record c { resume_retry_active = true })
hold rounds ws received (true, c) = after_pause received (wait_for_gui_resume rounds ws c)

-- The user asked for a pause: the server is asked to hold the transfer.
unfoldable pub pause_download : Update → ℕ → List Wait → ℕ → Client → Next
unfolding wait_for_gui_resume write_resume_metadata
pause_download u rounds ws received c = hold rounds ws received (
    with_conn (record c { disk = write_resume_metadata u received c.disk })
      (proto_send_text c.conn msg_pause (copy_str 1025 (codes "offset=" ++ decimal received))))

-- A DATA frame. The sum of 64 bits wraps around.
unfoldable pub take_data : Update → Round → ℕ → List ℕ → Client → Next
take_data u r received bytes c =
    if ltb u.size ((received + length bytes) % 2 ^ 64)
    then ends fatal (record c { disk = set_file u.part_path none c.disk })
    else if ltb r.writes (length bytes)
    then ends retry (record c { disk = append_file u.part_path (take r.writes bytes) c.disk })
    else goes_on ((received + length bytes) % 2 ^ 64)
        (record c { disk = append_file u.part_path bytes c.disk })

abbrev pub same_sha : CString → Option CString → Bool
same_sha sha none = false
same_sha sha (some s) = str_case_eq s sha

-- The end of the transfer, which repeats the checksum.
unfoldable pub take_done : Update → List ℕ → Client → Next
take_done u payload c =
    if same_sha u.sha (kv_get (c_text payload) (codes "sha256") 65)
    then complete c
    else ends retry (record c { disk = set_file u.part_path none c.disk })

-- No frame came: the part is kept for later.
unfoldable pub lost : Update → Round → ℕ → Client → Next
unfolding save_interrupted_download
lost u r received c =
    if r.stop_late
    then give (save_interrupted_download u received paused c)
    else give (save_interrupted_download u received reconnect c)

abbrev pub take_frame : Update → Round → ℕ → Recv × Conn → Client → Next
take_frame u r received (recv_ok type flags payload, conn) c =
    if is_type type msg_data
    then take_data u r received payload (record c { conn = conn })
    else if is_type type msg_transfer_done
    then take_done u payload (record c { conn = conn })
    else ends retry (record c { conn = conn })
take_frame u r received (recv_eof, conn) c = lost u r received (record c { conn = conn })
take_frame u r received (recv_bad, conn) c = lost u r received (record c { conn = conn })
take_frame u r received (recv_too_large, conn) c = lost u r received (record c { conn = conn })

-- One round of the loop: `pause_rounds` is the time of a pause.
unfoldable pub round_of : Update → ℕ → Round → ℕ → Client → Next
unfolding pause_download save_interrupted_download take_data take_done
round_of u pause_rounds r received c =
    if r.pause
    then pause_download u pause_rounds r.waits received c
    else if r.stop
    then give (save_interrupted_download u received paused c)
    else take_frame u r received (proto_recv c.conn (u.chunk + 1) u.chunk) c

-- The loop, over the rounds that are to come: it ends the attempt, or all was received. Behind the
-- list the client is asked to stop.
unfoldable pub receive_loop : Update → ℕ → List Round → ℕ → Client → (Attempt × Client) ⊎ Client
unfolding round_of
receive_loop u pause_rounds [] received c = inl (save_interrupted_download u received paused c)
receive_loop u pause_rounds (r ∷ rs) received c = elim (round_of u pause_rounds r received c) [
  | ends a c' ↦ inl (a, c')
  | complete c' ↦ inr c'
  | goes_on n c' ↦ receive_loop u pause_rounds rs n c'
]
