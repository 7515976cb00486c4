-- ===== src/Protocol.antt =====
-- Project_3/Project_3/src/common/protocol.c: frames of a 12-byte header and a payload. The fields `key=value;...` of
-- the payloads are in the child `Fields`.
pub mod Fields
pub mod Frames
pub mod RoundTrip
mod Tests
use distributed_software_upd.Prelude.{
  ℕ, ◌+◌, ◌*◌, ◌/◌, ◌%◌, ◌^◌, Bool, true, false, ◌&&◌, ◌||◌, Option, none, some, List, [], ◌∷◌,
  ◌++◌, CString, codes, ltb, ◌==◌, not, if◌then◌else◌, length, get_or, take, drop, copy_str,
}
use distributed_software_upd.Net.{Conn, conn_write_all, conn_read_all}

-- `msg_type_t`. A byte off the wire is cast to it unchecked, so it holds other codes too.
pub data MsgType : Type 0 where
  msg_hello msg_auth msg_auth_ok msg_version_req msg_uptodate msg_update_available : MsgType
  msg_download_req msg_data msg_transfer_done msg_result msg_error msg_bye : MsgType
  msg_pause msg_resume : MsgType
  msg_other : ℕ → MsgType

abbrev pub type_code : MsgType → ℕ
type_code msg_hello = 1
type_code msg_auth = 2
type_code msg_auth_ok = 3
type_code msg_version_req = 4
type_code msg_uptodate = 5
type_code msg_update_available = 6
type_code msg_download_req = 7
type_code msg_data = 8
type_code msg_transfer_done = 9
type_code msg_result = 10
type_code msg_error = 11
type_code msg_bye = 12
type_code msg_pause = 13
type_code msg_resume = 14
type_code (msg_other n) = n

abbrev named_types : List MsgType
named_types =
    msg_hello ∷ msg_auth ∷ msg_auth_ok ∷ msg_version_req ∷ msg_uptodate ∷ msg_update_available
    ∷ msg_download_req ∷ msg_data ∷ msg_transfer_done ∷ msg_result ∷ msg_error ∷ msg_bye ∷ msg_pause
    ∷ msg_resume ∷ []

abbrev find_type : List MsgType → ℕ → MsgType
find_type [] n = msg_other n
find_type (t ∷ ts) n = if type_code t == n then t else find_type ts n

-- `(msg_type_t)hdr[5]`
abbrev pub type_of_code : ℕ → MsgType
type_of_code n = find_type named_types n

abbrev pub is_type : MsgType → MsgType → Bool
is_type a b = type_code a == type_code b

abbrev pub max_control_payload : ℕ
max_control_payload = 1024

abbrev pub frame_header_size : ℕ
frame_header_size = 12

unfoldable pub put_u32_be : ℕ → List ℕ
put_u32_be v = v / 2 ^ 24 % 256 ∷ v / 2 ^ 16 % 256 ∷ v / 2 ^ 8 % 256 ∷ v % 256 ∷ []

-- The four bytes stand in bits of their own, so the source's `|` is a sum.
unfoldable pub get_u32_be : List ℕ → ℕ
get_u32_be p =
    (get_or p 0 0 * 2 ^ 24 + get_or p 1 0 * 2 ^ 16 + get_or p 2 0 * 2 ^ 8 + get_or p 3 0) % 2 ^ 32

unfoldable pub header : MsgType → ℕ → ℕ → List ℕ
unfolding put_u32_be
header type flags len =
    0x55 ∷ 0x50 ∷ 0x44 ∷ 0x54 ∷ 1 ∷ type_code type % 256 ∷ flags ∷ 0 ∷ put_u32_be len

-- The payload pointer may be NULL, and the length counts the bytes sent from it.
abbrev pub bytes_of : Option (List ℕ) → ℕ → List ℕ
bytes_of none len = []
bytes_of (some p) len = take len p

abbrev pub refuses : MsgType → Option (List ℕ) → ℕ → Bool
refuses type none len = ltb 0 len || (not (is_type type msg_data) && ltb max_control_payload len)
refuses type (some p) len = not (is_type type msg_data) && ltb max_control_payload len

unfoldable pub send_payload : Bool × Conn → List ℕ → Bool × Conn
send_payload (false, c) buf = (false, c)
send_payload (true, c) buf = if ltb 0 (length buf) then conn_write_all c buf else (true, c)

-- The flag is `true` for the return of 0.
unfoldable pub proto_send : Conn → MsgType → ℕ → Option (List ℕ) → ℕ → Bool × Conn
unfolding send_payload
proto_send conn type flags payload len =
    if refuses type payload len
    then (false, conn)
    else send_payload (conn_write_all conn (header type flags len)) (bytes_of payload len)

unfoldable pub proto_send_text : Conn → MsgType → CString → Bool × Conn
unfolding proto_send
proto_send_text conn type text = proto_send conn type 0 (some text) (length text % 2 ^ 32)

pub error_payload : CString → CString → CString
error_payload code message =
    copy_str (max_control_payload + 1) (codes "code=" ++ (code ++ (codes ";msg=" ++ message)))

pub proto_send_error : Conn → CString → CString → Bool × Conn
unfolding proto_send_text error_payload
proto_send_error conn code message = proto_send_text conn msg_error (error_payload code message)

-- `proto_recv_status_t`, with what the out-parameters hold after PROTO_RECV_OK.
pub data Recv : Type 0 where
  recv_ok : MsgType → ℕ → List ℕ → Recv
  recv_eof : Recv
  recv_bad : Recv
  recv_too_large : Recv

abbrev pub bad_header : List ℕ → Bool
bad_header hdr =
    not (get_or hdr 0 0 == 0x55)
    || not (get_or hdr 1 0 == 0x50)
    || not (get_or hdr 2 0 == 0x44)
    || not (get_or hdr 3 0 == 0x54)
    || not (get_or hdr 4 0 == 1)
    || not (get_or hdr 7 0 == 0)

-- The payload has been read.
abbrev pub finish : MsgType → ℕ → Bool × List ℕ × Conn → Recv × Conn
finish type flags (false, payload, c) = (recv_eof, c)
finish type flags (true, payload, c) = (recv_ok type flags payload, c)

abbrev pub read_payload : MsgType → ℕ → ℕ → Conn → Recv × Conn
read_payload type flags len c =
    if ltb 0 len then finish type flags (conn_read_all c len) else (recv_ok type flags [], c)

abbrev pub allowed : MsgType → ℕ → ℕ
allowed type data_cap = if is_type type msg_data then data_cap else max_control_payload

-- The header has been read.
unfoldable pub read_frame : ℕ → ℕ → Bool × List ℕ × Conn → Recv × Conn
unfolding get_u32_be
read_frame cap data_cap (false, hdr, c) = (recv_eof, c)
read_frame cap data_cap (true, hdr, c) =
    let type = type_of_code (get_or hdr 5 0) in
    let len = get_u32_be (drop 8 hdr) in
    if bad_header hdr
    then (recv_bad, c)
    else if ltb (allowed type data_cap) len || ltb cap len
    then (recv_too_large, c)
    else read_payload type (get_or hdr 6 0) len c

-- `cap` is the size of the caller's buffer. The terminating zero written behind the payload, where
-- there is room, is left out: a payload is a list of its bytes.
unfoldable pub proto_recv : Conn → ℕ → ℕ → Recv × Conn
unfolding read_frame
proto_recv conn cap data_cap = read_frame cap data_cap (conn_read_all conn frame_header_size)

pub proto_msg_name : MsgType → CString
proto_msg_name msg_hello = codes "HELLO"
proto_msg_name msg_auth = codes "AUTH"
proto_msg_name msg_auth_ok = codes "AUTH_OK"
proto_msg_name msg_version_req = codes "VERSION_REQ"
proto_msg_name msg_uptodate = codes "UPTODATE"
proto_msg_name msg_update_available = codes "UPDATE_AVAILABLE"
proto_msg_name msg_download_req = codes "DOWNLOAD_REQ"
proto_msg_name msg_data = codes "DATA"
proto_msg_name msg_transfer_done = codes "TRANSFER_DONE"
proto_msg_name msg_result = codes "RESULT"
proto_msg_name msg_error = codes "ERROR"
proto_msg_name msg_bye = codes "BYE"
proto_msg_name msg_pause = codes "PAUSE"
proto_msg_name msg_resume = codes "RESUME"
proto_msg_name (msg_other n) = codes "UNKNOWN"
