-- ===== src/Protocol/RoundTrip.antt =====
-- A message sent is the message received; and no message overruns the receiver's buffer.
use distributed_software_upd.Prelude.{
  ℕ, ◌+◌, ◌%◌, ◌^◌, ◌≤◌, ◌<◌, ◌≡◌, refl, ap, ◌∙◌, inl, inr, Bool, true, false, ◌||◌, some, List, [],
  ◌++◌, ltb, if◌then◌else◌, length, get_or, drop, arith, Bool-cases, length-take,
}
use distributed_software_upd.Net.{Conn, conn_read_all}
use distributed_software_upd.Net.Laws.{conn_read_all_lem}
use distributed_software_upd.Net.Progress.{Lively}
use distributed_software_upd.Protocol.{
  MsgType, type_code, type_of_code, get_u32_be, frame_header_size, proto_send, Recv, recv_ok,
  recv_eof, recv_bad, recv_too_large, bad_header, finish, read_payload, allowed, read_frame,
  proto_recv,
}
use distributed_software_upd.Protocol.Frames.{frame, proto_send-frame, Received, proto_recv-frame}

-- A peer that reads the bytes which `proto_send` has put out receives the message that was sent:
-- its type, its flags and its payload. The type is a named one, the peer's buffer and its limit for
-- the type hold the payload, and the calls on both sides last.
pub proto_recv-proto_send :
    (a b : Conn) (type : MsgType) (flags : ℕ) (payload rest : List ℕ) (cap data_cap m : ℕ)
    → type_of_code (type_code type % 256) ≡ type
    → length payload < 2 ^ 32
    → length payload ≤ allowed type data_cap
    → length payload ≤ cap
    → a.outgoing ≡ []
    → let (sent, a') = proto_send a type flags (some payload) (length payload) in
      sent ≡ true
      → b.incoming ≡ a'.outgoing ++ rest
      → Lively b.ssl b.calls (frame_header_size + (length payload + m))
      → Received type flags payload rest m (proto_recv b cap data_cap)
proto_recv-proto_send a b type flags payload rest cap data_cap m named small fits room fresh ok e
      l =
    proto_recv-frame b type flags payload rest cap data_cap m named small fits room
      (e
        ∙ ap (λ (xs : List ℕ). xs ++ rest)
            (proto_send-frame a type flags payload ok
              ∙ ap (λ (xs : List ℕ). xs ++ frame type flags payload) fresh))
      l

-- What a received message is bounded by.
abbrev pub InBounds : ℕ → ℕ → Recv → Type 0
InBounds cap data_cap (recv_ok type flags payload) =
    (length payload ≤ cap) × (length payload ≤ allowed type data_cap)
InBounds cap data_cap recv_eof = Unit {0}
InBounds cap data_cap recv_bad = Unit {0}
InBounds cap data_cap recv_too_large = Unit {0}

finish-InBounds :
    (type : MsgType) (flags cap data_cap : ℕ) (r : Bool × List ℕ × Conn)
    → (r.0 ≡ true → (length r.1 ≤ cap) × (length r.1 ≤ allowed type data_cap))
    → InBounds cap data_cap (finish type flags r).0
finish-InBounds type flags cap data_cap (false, p, c) h = tt
finish-InBounds type flags cap data_cap (true, p, c) h = h refl

read_payload-InBounds :
    (type : MsgType) (flags cap data_cap len : ℕ) (c : Conn)
    → len ≤ cap
    → len ≤ allowed type data_cap
    → InBounds cap data_cap (read_payload type flags len c).0
read_payload-InBounds type flags cap data_cap len c p q = elim (Bool-cases (ltb 0 len)) [
  | inl e ↦
      rw (e, if◌then◌else◌)
        (finish-InBounds type flags cap data_cap (conn_read_all c len) (λ ok.
          let got = (conn_read_all_lem c len ok).0 in
          let l : length (conn_read_all c len).1 ≤ len =
            omega (arith, ap length got, length-take len c.incoming) in
          (omega arith, omega arith)))
  | inr e ↦ rw (e, if◌then◌else◌) (omega arith, omega arith)
]

read_frame-InBounds :
    (cap data_cap : ℕ) (r : Bool × List ℕ × Conn)
    → InBounds cap data_cap (read_frame cap data_cap r).0
unfolding read_frame
read_frame-InBounds cap data_cap (false, hdr, c) = tt
read_frame-InBounds cap data_cap (true, hdr, c) = elim (Bool-cases (bad_header hdr)) [
  | inl e ↦ rw (e, if◌then◌else◌) tt
  | inr e ↦ rw (e, if◌then◌else◌) (sized _ refl)
]
  where
    type : MsgType
    type = type_of_code (get_or hdr 5 0)

    len : ℕ
    len = get_u32_be (drop 8 hdr)

    sized :
        (t : Bool)
        → t ≡ (ltb (allowed type data_cap) len || ltb cap len)
        → InBounds cap data_cap
            (if t then (recv_too_large, c) else read_payload type (get_or hdr 6 0) len c).0
    sized true e = tt
    sized false e =
        read_payload-InBounds type (get_or hdr 6 0) cap data_cap len c (ground arith) (ground arith)

-- Whatever bytes the peer sends: a payload that `proto_recv` accepts fits the caller's buffer, and
-- the limit for its message's type.
pub proto_recv_bounds :
    (c : Conn) (cap data_cap : ℕ) → InBounds cap data_cap (proto_recv c cap data_cap).0
unfolding proto_recv
proto_recv_bounds c cap data_cap =
    read_frame-InBounds cap data_cap (conn_read_all c frame_header_size)
