-- ===== src/CheckForUpdate.antt =====
-- Project_3/Project_3/src/client/downloader.c: an attempt to update, and the loop that repeats it. A connection's
-- closing, the user interface and the log lines are left out.
pub mod Attempts
pub mod Termination
mod Tests
use distributed_software_upd.Prelude.{
  ℕ, suc, ◌+◌, ◌-◌, Bool, true, false, ◌&&◌, ◌||◌, not, Option, none, some, List, [], ◌∷◌, ◌++◌,
  CString, codes, ltb, leb, if◌then◌else◌, str_eq, copy_str,
}
use distributed_software_upd.Net.{Conn}
use distributed_software_upd.Protocol.{
  MsgType, msg_hello, msg_auth, msg_auth_ok, msg_version_req, msg_uptodate, msg_update_available,
  msg_error, is_type, max_control_payload, proto_send_text, proto_recv,
}
use distributed_software_upd.Protocol.Fields.{kv_get}
use distributed_software_upd.Session.{text_of, expect}
use distributed_software_upd.VersionTable.{Reading, text_found, get_current_version}
use distributed_software_upd.Download.{
  Attempt, success, retry, reconnect, resume_reconnect, fatal, paused, Client, with_conn,
}
use distributed_software_upd.Download.Receive.{Settings, Events, receive_update}

-- What one attempt meets: the connection, or none; whether TLS is set up on it; whether a stop is
-- asked for once it is connected, when something fails, and in the ten seconds after the end; and
-- what a download meets.
pub record Peer : Type 0 where
  pub opened : Option Conn
  pub secures : Bool
  pub stop_connected : Bool
  pub stop_failed : Bool
  pub stop_after : Bool
  pub events : Events

-- `retry_or_reconnect`, and a stop that comes before it.
abbrev pub retry_or_reconnect : Client → Attempt
retry_or_reconnect c = if c.resume_retry_active then reconnect else retry

abbrev pub give_up : Peer → Client → Attempt × Client
give_up p c = (if p.stop_failed then paused else retry_or_reconnect c, c)

abbrev pub heard :
    (Option (MsgType × CString)) × Conn → Client → Option (MsgType × CString) × Client
heard (got, conn) c = (got, record c { conn = conn })

-- `recv_control`
unfoldable pub recv_reply : Client → Option (MsgType × CString) × Client
recv_reply c =
    let (r, conn) = proto_recv c.conn (max_control_payload + 1) 0 in heard (text_of r, conn) c

-- A request is sent and answered.
abbrev pub await_reply : Bool × Client → Option (MsgType × CString) × Client
await_reply (false, c) = (none, c)
await_reply (true, c) = recv_reply c

unfoldable pub ask : Client → MsgType → CString → Option (MsgType × CString) × Client
unfolding recv_reply
ask c type text =
    await_reply
      (with_conn c (proto_send_text c.conn type (copy_str (max_control_payload + 1) text)))

abbrev pub error_code : CString → CString
error_code payload = elim (kv_get payload (codes "code") 64) [ none ↦ [] | some code ↦ code ]

-- The ten seconds after a success may be interrupted.
abbrev pub rest_after : Peer → Attempt × Client → Attempt × Client
rest_after p (success, c) = (if p.stop_after then paused else success, c)
rest_after p (retry, c) = (retry, c)
rest_after p (reconnect, c) = (reconnect, c)
rest_after p (resume_reconnect, c) = (resume_reconnect, c)
rest_after p (fatal, c) = (fatal, c)
rest_after p (paused, c) = (paused, c)

abbrev pub up_to_date : Peer → Client → Attempt × Client
up_to_date p c = rest_after p (success, record (recv_reply c).1 { resume_retry_active = false })

-- The answer to VERSION_REQ.
abbrev pub on_version : Settings → Peer → Option (MsgType × CString) × Client → Attempt × Client
on_version s p (none, c) = give_up p c
on_version s p (some (type, payload), c) =
    if is_type type msg_uptodate
    then up_to_date p c
    else if is_type type msg_update_available
    then rest_after p (receive_update s p.events payload c)
    else if is_type type msg_error
    then (
      if str_eq (error_code payload) (codes "DUPLICATE_CLIENT")
            || str_eq (error_code payload) (codes "BAD_VERSION")
          then fatal
          else retry,
      c,
    )
    else give_up p c

-- The answer to AUTH.
abbrev pub on_auth :
    Settings → Peer → CString → Option (MsgType × CString) × Client → Attempt × Client
on_auth s p current (none, c) = give_up p c
on_auth s p current (some (type, payload), c) =
    if is_type type msg_error
    then (
      if str_eq (error_code payload) (codes "DUPLICATE_CLIENT")
            || str_eq (error_code payload) (codes "AUTH_FAIL")
          then fatal
          else retry,
      c,
    )
    else if not (is_type type msg_auth_ok)
    then give_up p c
    else on_version s p (ask c msg_version_req (codes "cur=" ++ current))

-- The server's first message.
abbrev pub on_hello :
    Settings → Peer → CString → Option (MsgType × CString) × Client → Attempt × Client
on_hello s p current (got, c) = elim (expect msg_hello got) [
  | none ↦ give_up p c
  | some _ ↦ on_auth s p current (ask c msg_auth (codes "id=" ++ s.client_id))
]

-- The connection is there.
abbrev pub on_connection : Settings → Bool → Peer → CString → Client → Attempt × Client
on_connection s enable_tls p current c =
    if p.stop_connected
    then (paused, c)
    else if enable_tls && not p.secures
    then give_up p c
    else on_hello s p current (recv_reply c)

abbrev pub on_open : Settings → Bool → Peer → CString → Client → Option Conn → Attempt × Client
on_open s enable_tls p current c none = give_up p c
on_open s enable_tls p current c (some conn) =
    on_connection s enable_tls p current (record c { conn = record conn { ssl = enable_tls } })

unfoldable pub run_attempt : Settings → Bool → Peer → CString → Client → Attempt × Client
unfolding ask
run_attempt s enable_tls p current c = on_open s enable_tls p current c p.opened

-- One pass of the loop: whether a stop is asked for before it, what the attempt meets, and whether a
-- stop is asked for while the client waits for the next.
pub record Try : Type 0 where
  pub stop : Bool
  pub peer : Peer
  pub stop_waiting : Bool

-- The returns 0, 130 and -1.
pub data Exit : Type 0 where
  updated : Exit
  interrupted : Exit
  failed : Exit

-- After an attempt the loop ends, or goes on with the number of the next.
pub data Step : Type 0 where
  leaves : Exit → Client → Step
  tries : ℕ → Client → Step

-- The wait for the next attempt, where there is one: `most` is `retry_max`.
abbrev pub wait_for_next : ℕ → ℕ → Try → Client → Step
wait_for_next most attempt t c =
    if ltb attempt most
    then (if t.stop_waiting
        then leaves interrupted (record c { is_paused = true })
        else tries (attempt + 1) c)
    else leaves failed c

abbrev pub judge : ℕ → ℕ → Try → Attempt × Client → Step
judge most attempt t (success, c) = leaves updated c
judge most attempt t (resume_reconnect, c) =
    if ltb attempt most then tries attempt c else leaves failed c
judge most attempt t (reconnect, c) = wait_for_next most attempt t c
judge most attempt t (paused, c) = leaves interrupted c
judge most attempt t (fatal, c) = leaves failed c
judge most attempt t (retry, c) = wait_for_next most attempt t c

unfoldable pub pass : Settings → Bool → ℕ → CString → ℕ → Try → Client → Step
unfolding run_attempt
pass s enable_tls most current attempt t c =
    if t.stop
    then leaves interrupted (record c { is_paused = true })
    else judge most attempt t (run_attempt s enable_tls t.peer current c)

-- The loop over the passes that are to come; none where they are used up before it ends.
unfoldable pub retry_loop :
    Settings → Bool → ℕ → CString → ℕ → List Try → Client → Option (Exit × Client)
unfolding pass
retry_loop s enable_tls most current attempt [] c =
    if ltb most attempt then some (failed, c) else none
retry_loop s enable_tls most current attempt (t ∷ ts) c =
    if ltb most attempt
    then some (failed, c)
    else elim (pass s enable_tls most current attempt t c) [
      | leaves x c' ↦ some (x, c')
      | tries n c' ↦ retry_loop s enable_tls most current n ts c'
    ]

-- `configured` is the version of the configuration, `locked` tells whether the table is locked, and
-- `reading` how it is read then.
unfoldable pub check_for_update :
    Settings → Bool → ℕ → CString → Bool → Reading → List Try → Client → Option (Exit × Client)
unfolding retry_loop
check_for_update s enable_tls most configured locked reading ts c =
    elim (get_current_version configured s.client_id locked
      (text_found reading (c.disk s.version_file))) [
        | none ↦ some (failed, c)
        | some current ↦ retry_loop s enable_tls most current 1 ts c
      ]
