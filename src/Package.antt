-- ===== src/Package.antt =====
-- Project_3/Project_3/src/server/package_service.c: finding a package and streaming it. The log
-- lines are left out, with the offset that the client reports in PAUSE, which is logged only.
pub mod Paths
pub mod Quiet
pub mod Stream
mod Tests
use distributed_software_upd.Prelude.{
  ℕ, ◌+◌, ◌-◌, min, Bool, true, false, ◌&&◌, ◌||◌, not, Option, none, some, List, [], ◌∷◌, ◌++◌,
  CString, codes, leb, ltb, ◌==◌, if◌then◌else◌, length, take, drop, is_empty, has_byte,
}
use distributed_software_upd.Net.{Conn}
use distributed_software_upd.Protocol.{
  MsgType, msg_data, msg_pause, msg_resume, is_type, max_control_payload, Recv, recv_ok, recv_eof,
  recv_bad, recv_too_large, proto_send, proto_recv,
}

-- The return of `select` on the connection, for the time that the call waits: an error, 0, or
-- something to read.
pub data Ready : Type 0 where
  failed : Ready
  timed_out : Ready
  readable : Ready

-- A connection with what the coming calls of `select` return; behind the list they fail.
pub record Channel : Type 0 where
  pub conn : Conn
  pub selects : List Ready

-- The returns -1, 0 and 1 of `recv_control_if_ready`, with the type that was received.
pub data Control : Type 0 where
  broken : Control
  silent : Control
  control : MsgType → Control

abbrev control_of : Recv → Control
control_of (recv_ok type flags payload) = control type
control_of recv_eof = broken
control_of recv_bad = broken
control_of recv_too_large = broken

abbrev pub receive : List Ready → Recv × Conn → Control × Channel
receive selects (r, c) = (control_of r, record { conn = c; selects = selects })

abbrev pub poll : Conn → List Ready → Control × Channel
poll c [] = (broken, record { conn = c; selects = [] })
poll c (failed ∷ rs) = (broken, record { conn = c; selects = rs })
poll c (timed_out ∷ rs) = (silent, record { conn = c; selects = rs })
poll c (readable ∷ rs) = receive rs (proto_recv c (max_control_payload + 1) 0)

-- Into a buffer of MAX_CONTROL_PAYLOAD + 1 bytes; no DATA payload is accepted.
unfoldable pub recv_control_if_ready : Channel → Control × Channel
recv_control_if_ready ch = poll ch.conn ch.selects

-- After PAUSE: the client must resume before the hold time is over.
abbrev pub await_resume : Control × Channel → Bool × Channel
await_resume (broken, ch) = (false, ch)
await_resume (silent, ch) = (false, ch)
await_resume (control type, ch) = (is_type type msg_resume, ch)

abbrev pub on_control : Control × Channel → Bool × Channel
on_control (broken, ch) = (false, ch)
on_control (silent, ch) = (true, ch)
on_control (control type, ch) =
    if is_type type msg_pause then await_resume (recv_control_if_ready ch) else (false, ch)

-- The flag is `true` for the return of 0.
unfoldable pub handle_pause_if_requested : Channel → Bool × Channel
unfolding recv_control_if_ready
handle_pause_if_requested ch = on_control (recv_control_if_ready ch)

-- `strstr(s, "..")`.
unfoldable pub has_dots : CString → Bool
has_dots [] = false
has_dots (_ ∷ []) = false
has_dots (a ∷ (b ∷ s)) = ((a == b'.') && (b == b'.')) || has_dots (b ∷ s)

abbrev starts_with : ℕ → CString → Bool
starts_with c [] = false
starts_with c (x ∷ s) = x == c

-- `none` is the return of -1.
unfoldable pub pkg_resolve_path : CString → CString → ℕ → Option CString
unfolding has_dots
pkg_resolve_path dir file out_len =
    if (out_len == 0)
      || is_empty file
      || starts_with b'/' file
      || has_dots file
      || has_byte b'/' file
      || has_byte b'\\' file
    then none
    else (let path = dir ++ (codes "/" ++ file) in
        if ltb 0 (length path) && ltb (length path) out_len then some path else none)

-- What `stat` returns: whether the file is a regular one, and its size.
unfoldable pub pkg_file_size : Option (Bool × ℕ) → Option ℕ
pkg_file_size none = none
pkg_file_size (some (regular, size)) = if regular then some size else none

-- The file at a path, and what the coming calls on it return. A `fread` returns at most the bytes
-- that are left, that many at most and no more than it was asked for, with `ferror` after it; behind
-- the list it returns 0.
pub record PackageFile : Type 0 where
  pub stat : Option (Bool × ℕ)
  pub opens : Bool
  pub seeks : Bool
  pub allocates : Bool
  pub content : List ℕ
  pub reads : List (ℕ × Bool)

-- The connection and the counter `bytes_sent`.
pub record Transfer : Type 0 where
  pub channel : Channel
  pub bytes_sent : ℕ

-- A chunk is sent, after `sent` bytes with it; its length fits the 32 bits that it is cast to.
unfoldable pub send_chunk : ℕ → ℕ → List ℕ → Transfer → Bool × Transfer
send_chunk size sent bytes t =
    let (ok, c) =
      proto_send t.channel.conn msg_data (if sent == size then 1 else 0) (some bytes)
        (length bytes) in
    (
      ok,
      record {
        channel = record { conn = c; selects = t.channel.selects };
        bytes_sent = if ok then t.bytes_sent + length bytes else t.bytes_sent;
      },
    )

-- The loop: the reads to come, the bytes sent so far and those of the file that are left. Every
-- round takes a read.
unfoldable pub stream_loop : ℕ → ℕ → List (ℕ × Bool) → ℕ → List ℕ → Transfer → Bool × Transfer
unfolding send_chunk handle_pause_if_requested
stream_loop size chunk_size [] sent left t = elim (ltb sent size) [
  | false ↦ (true, t)
  | true ↦ (false, record t { channel = (handle_pause_if_requested t.channel).1 })
]
stream_loop size chunk_size ((most, err) ∷ reads) sent left t = elim (ltb sent size) [
  | false ↦ (true, t)
  | true ↦
      let (go, ch) = handle_pause_if_requested t.channel in
      let want = min (size - sent) chunk_size in
      let bytes = take (min most want) left in
      let (ok, next) = send_chunk size (sent + length bytes) bytes (record t { channel = ch }) in
      elim (go && ltb 0 (length bytes)) [
        | false ↦ (false, record t { channel = ch })
        | true ↦ elim (ok && not (ltb (length bytes) want && err)) [
          | false ↦ (false, next)
          | true ↦
              stream_loop size chunk_size reads (sent + length bytes) (drop (length bytes) left)
                next
        ]
      ]
]

abbrev pub min_chunk_size : ℕ
min_chunk_size = 4096

abbrev pub max_chunk_size : ℕ
max_chunk_size = 0x10_0000

-- The size is known and the arguments are accepted.
unfoldable pub open_and_stream : PackageFile → ℕ → ℕ → ℕ → Transfer → Bool × Transfer
unfolding stream_loop
open_and_stream f size offset chunk_size t =
    if f.opens && f.seeks && f.allocates
    then stream_loop size chunk_size f.reads offset (drop offset f.content) t
    else (false, t)

-- The flag is `true` for the return of 0. A negative chunk size is refused as 0 is. The delay
-- between chunks is left out, and the hold time of a pause is in what `select` returns.
unfoldable pub pkg_stream_file : PackageFile → ℕ → ℕ → Transfer → Bool × Transfer
unfolding open_and_stream pkg_file_size
pkg_stream_file f offset chunk_size t = elim (pkg_file_size f.stat) [
  | none ↦ (false, t)
  | some size ↦
      if ltb size offset || ltb chunk_size min_chunk_size || ltb max_chunk_size chunk_size
      then (false, t)
      else open_and_stream f size offset chunk_size t
]
