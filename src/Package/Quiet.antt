-- ===== src/Package/Quiet.antt =====
-- Receiving control messages during a transfer writes nothing.
use distributed_software_upd.Prelude.{
  ℕ, ◌+◌, ◌≡◌, refl, ◌∙◌, inl, inr, Bool, true, false, ◌||◌, List, [], ◌∷◌, ltb, if◌then◌else◌,
  drop, get_or, Bool-cases,
}
use distributed_software_upd.Net.{Conn, conn_read_all}
use distributed_software_upd.Protocol.{
  MsgType, Recv, proto_recv, read_frame, read_payload, finish, bad_header, allowed, type_of_code,
  get_u32_be, is_type, msg_pause, max_control_payload,
}
use distributed_software_upd.Package.{
  Ready, failed, timed_out, readable, Channel, Control, broken, silent, control, receive,
  recv_control_if_ready, poll, on_control, await_resume, handle_pause_if_requested,
}

-- Receiving writes nothing.
conn_read_all-outgoing : (c : Conn) (n : ℕ) → (conn_read_all c n).2.outgoing ≡ c.outgoing
unfolding conn_read_all
conn_read_all-outgoing c n = refl

finish-outgoing :
    (type : MsgType) (flags : ℕ) (r : Bool × List ℕ × Conn)
    → (finish type flags r).1.outgoing ≡ r.2.outgoing
finish-outgoing type flags (false, payload, c) = refl
finish-outgoing type flags (true, payload, c) = refl

read_payload-outgoing :
    (type : MsgType) (flags len : ℕ) (c : Conn)
    → (read_payload type flags len c).1.outgoing ≡ c.outgoing
read_payload-outgoing type flags len c = elim (Bool-cases (ltb 0 len)) [
  | inl t ↦
      rw (t, if◌then◌else◌)
        (finish-outgoing type flags (conn_read_all c len) ∙ conn_read_all-outgoing c len)
  | inr t ↦ rw (t, if◌then◌else◌) refl
]

read_frame-outgoing :
    (cap data_cap : ℕ) (r : Bool × List ℕ × Conn)
    → (read_frame cap data_cap r).1.outgoing ≡ r.2.outgoing
unfolding read_frame
read_frame-outgoing cap data_cap (false, hdr, c) = refl
read_frame-outgoing cap data_cap (true, hdr, c) =
    let type = type_of_code (get_or hdr 5 0) in
    let len = get_u32_be (drop 8 hdr) in
    elim (Bool-cases (bad_header hdr)) [
      | inl t ↦ rw (t, if◌then◌else◌) refl
      | inr t ↦ elim (Bool-cases (ltb (allowed type data_cap) len || ltb cap len)) [
        | inl u ↦ rw (t, u, if◌then◌else◌) refl
        | inr u ↦ rw (t, u, if◌then◌else◌) (read_payload-outgoing type (get_or hdr 6 0) len c)
      ]
    ]

proto_recv-outgoing :
    (c : Conn) (cap data_cap : ℕ) → (proto_recv c cap data_cap).1.outgoing ≡ c.outgoing
unfolding proto_recv
proto_recv-outgoing c cap data_cap =
    read_frame-outgoing cap data_cap (conn_read_all c 12) ∙ conn_read_all-outgoing c 12

receive-outgoing :
    (rs : List Ready) (r : Recv × Conn) → (receive rs r).1.conn.outgoing ≡ r.1.outgoing
receive-outgoing rs (r, c) = refl

poll-outgoing : (c : Conn) (rs : List Ready) → (poll c rs).1.conn.outgoing ≡ c.outgoing
poll-outgoing c [] = refl
poll-outgoing c (failed ∷ rs) = refl
poll-outgoing c (timed_out ∷ rs) = refl
poll-outgoing c (readable ∷ rs) =
    receive-outgoing rs (proto_recv c (max_control_payload + 1) 0)
    ∙ proto_recv-outgoing c (max_control_payload + 1) 0

await_resume-outgoing :
    (r : Control × Channel) → (await_resume r).1.conn.outgoing ≡ r.1.conn.outgoing
await_resume-outgoing (broken, ch) = refl
await_resume-outgoing (silent, ch) = refl
await_resume-outgoing (control type, ch) = refl

on_control-outgoing : (r : Control × Channel) → (on_control r).1.conn.outgoing ≡ r.1.conn.outgoing
unfolding recv_control_if_ready
on_control-outgoing (broken, ch) = refl
on_control-outgoing (silent, ch) = refl
on_control-outgoing (control type, ch) = elim (Bool-cases (is_type type msg_pause)) [
  | inl t ↦
      rw (t, if◌then◌else◌)
        (await_resume-outgoing (poll ch.conn ch.selects) ∙ poll-outgoing ch.conn ch.selects)
  | inr t ↦ rw (t, if◌then◌else◌) refl
]

-- The pause protocol writes nothing.
pub handle_pause_if_requested-outgoing :
    (ch : Channel) → (handle_pause_if_requested ch).1.conn.outgoing ≡ ch.conn.outgoing
unfolding handle_pause_if_requested recv_control_if_ready
handle_pause_if_requested-outgoing ch =
    on_control-outgoing (poll ch.conn ch.selects) ∙ poll-outgoing ch.conn ch.selects
