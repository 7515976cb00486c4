-- ===== src/Protocol/Frames.antt =====
-- One frame out, one frame in.
use distributed_software_upd.Prelude.{
  ℕ, ◌+◌, ◌%◌, ◌^◌, ◌≤◌, ◌<◌, ◌≡◌, refl, sym, ap, ◌∙◌, inl, inr, Bool, true, false, Option, none,
  some, List, [], ◌∷◌, ◌++◌, ltb, if◌then◌else◌, length, take, drop, arith, Bool-cases, subst,
  append_assoc, append-nil, length-append,
}
use distributed_software_upd.Net.{Conn, conn_write_all, conn_read_all}
use distributed_software_upd.Net.Laws.{conn_write_all_lem, conn_read_all_lem}
use distributed_software_upd.Net.Progress.{Lively, conn_read_all_progress}
use distributed_software_upd.Protocol.{
  MsgType, msg_data, type_code, type_of_code, is_type, put_u32_be, get_u32_be, header,
  frame_header_size, max_control_payload, send_payload, refuses, proto_send, Recv, recv_ok,
  read_payload, allowed, read_frame, proto_recv,
}

-- The four bytes of a 32-bit number give the number back.
pub get_u32_be-put_u32_be : (v : ℕ) → v < 2 ^ 32 → get_u32_be (put_u32_be v) ≡ v
unfolding get_u32_be put_u32_be
get_u32_be-put_u32_be v h = omega arith

-- The bytes of a frame.
abbrev pub frame : MsgType → ℕ → List ℕ → List ℕ
frame type flags payload = header type flags (length payload) ++ payload

pub length-header : (type : MsgType) (flags len : ℕ) → length (header type flags len) ≡ 12
unfolding header
length-header type flags len = refl

take_self : (xs : List ℕ) → take (length xs) xs ≡ xs
take_self [] = refl
take_self (x ∷ xs) = ap (λ ys. x ∷ ys) (take_self xs)

pub take-append : (xs ys : List ℕ) → take (length xs) (xs ++ ys) ≡ xs
take-append [] ys = refl
take-append (x ∷ xs) ys = ap (λ zs. x ∷ zs) (take-append xs ys)

pub drop-append : (xs ys : List ℕ) → drop (length xs) (xs ++ ys) ≡ ys
drop-append [] ys = refl
drop-append (x ∷ xs) ys = drop-append xs ys

-- A control payload of more than 1024 bytes is refused, and nothing is written.
pub proto_send_too_large :
    (c : Conn) (type : MsgType) (flags : ℕ) (payload : Option (List ℕ)) (len : ℕ)
    → is_type type msg_data ≡ false
    → max_control_payload < len
    → proto_send c type flags payload len ≡ (false, c)
unfolding proto_send
proto_send_too_large c type flags none len h p = rw h (ground arith)
proto_send_too_large c type flags (some buf) len h p = rw h (ground arith)

send_payload-outgoing :
    (r : Bool × Conn) (buf : List ℕ)
    → (send_payload r buf).0 ≡ true
    → (r.0 ≡ true) × ((send_payload r buf).1.outgoing ≡ r.1.outgoing ++ buf)
unfolding send_payload
send_payload-outgoing (false, c) buf h = absurd (cc)
send_payload-outgoing (true, c) [] h = (refl, simp append-nil)
send_payload-outgoing (true, c) (b ∷ buf) h =
    let e : ltb 0 (length (b ∷ buf)) ≡ true = ground arith in
    (
      refl,
      rw (e, if◌then◌else◌) ((conn_write_all_lem c (b ∷ buf)).0.2 (rw (e, if◌then◌else◌) at h)),
    )

-- Where `proto_send` returns 0 it has put out exactly the frame of its message: the header, with
-- the payload's length, and the payload.
pub proto_send-frame :
    (c : Conn) (type : MsgType) (flags : ℕ) (payload : List ℕ)
    → let (ok, c') = proto_send c type flags (some payload) (length payload) in
      ok ≡ true → c'.outgoing ≡ c.outgoing ++ frame type flags payload
unfolding proto_send
proto_send-frame c type flags payload =
    elim (Bool-cases (refuses type (some payload) (length payload))) [
      | inl e ↦ rw (e, if◌then◌else◌) (λ h. absurd (cc))
      | inr e ↦
          rw (e, if◌then◌else◌, take_self payload)
            (λ h.
              let sent = send_payload-outgoing (conn_write_all c (hdr)) payload h in
              sent.1
              ∙ ap (λ (out : List ℕ). out ++ payload) ((conn_write_all_lem c hdr).0.2 sent.0)
              ∙ append_assoc c.outgoing hdr payload)
    ]
  where
    hdr : List ℕ
    hdr = header type flags (length payload)

-- What the header of a frame says when it is read back.
read_frame-header :
    (cap data_cap : ℕ) (type : MsgType) (flags len : ℕ) (c : Conn)
    → len < 2 ^ 32
    → len ≤ allowed (type_of_code (type_code type % 256)) data_cap
    → len ≤ cap
    → read_frame cap data_cap (true, header type flags len, c)
      ≡ read_payload (type_of_code (type_code type % 256)) flags len c
unfolding read_frame header
read_frame-header cap data_cap type flags len c h p q =
    let e = get_u32_be-put_u32_be len h in rw e (ground arith)

-- Bytes that stand at the front of the stream are read as they stand.
read_exact :
    (c : Conn) (xs rest : List ℕ) (m : ℕ)
    → c.incoming ≡ xs ++ rest
    → Lively c.ssl c.calls (length xs + m)
    → let c' = (conn_read_all c (length xs)).2 in
      (conn_read_all c (length xs) ≡ (true, xs, c'))
      × (c'.incoming ≡ rest)
      × Lively c'.ssl c'.calls m
read_exact c xs rest m e lively =
    let fits : length xs ≤ length c.incoming = omega (arith, ap length e, length-append xs rest) in
    let (ok, live) = conn_read_all_progress c (length xs) m fits lively in
    let (p, q, _, _, _) = conn_read_all_lem c (length xs) ok in
    let p' : (conn_read_all c (length xs)).1 ≡ xs =
      p ∙ ap (λ (ys : List ℕ). take (length xs) ys) e ∙ take-append xs rest in
    (
      λ i. (ok i, p' i, (conn_read_all c (length xs)).2),
      q ∙ ap (λ (ys : List ℕ). drop (length xs) ys) e ∙ drop-append xs rest,
      live,
    )

-- What `proto_recv` leaves: the message, the rest of the stream, and the calls beyond it.
abbrev pub Received : MsgType → ℕ → List ℕ → List ℕ → ℕ → Recv × Conn → Type 0
Received type flags payload rest m r =
    (r.0 ≡ recv_ok type flags payload) × (r.1.incoming ≡ rest) × Lively r.1.ssl r.1.calls m

read_payload-Received :
    (c : Conn) (type : MsgType) (flags : ℕ) (payload rest : List ℕ) (m : ℕ)
    → c.incoming ≡ payload ++ rest
    → Lively c.ssl c.calls (length payload + m)
    → Received type flags payload rest m (read_payload type flags (length payload) c)
read_payload-Received c type flags [] rest m e lively =
    (refl, e, subst (Lively c.ssl c.calls) (omega arith) lively)
read_payload-Received c type flags (b ∷ payload) rest m e lively =
    let (p, q, live) = read_exact c (b ∷ payload) rest m e lively in
    let t : ltb 0 (length (b ∷ payload)) ≡ true = ground arith in
    rw (t, if◌then◌else◌, p) (refl, q, live)

-- A frame that stands at the front of the stream, with a named type and a payload that the caller
-- admits, is received as the message that it was made of, wherever the calls can move its bytes;
-- and the stream goes on behind it.
pub proto_recv-frame :
    (c : Conn) (type : MsgType) (flags : ℕ) (payload rest : List ℕ) (cap data_cap m : ℕ)
    → type_of_code (type_code type % 256) ≡ type
    → length payload < 2 ^ 32
    → length payload ≤ allowed type data_cap
    → length payload ≤ cap
    → c.incoming ≡ frame type flags payload ++ rest
    → Lively c.ssl c.calls (frame_header_size + (length payload + m))
    → Received type flags payload rest m (proto_recv c cap data_cap)
unfolding proto_recv header
proto_recv-frame c type flags payload rest cap data_cap m named small fits room e lively =
    rw
      (
        opened.0,
        read_frame-header cap data_cap type flags (length payload) after small
            (subst (λ (t : MsgType). length payload ≤ allowed t data_cap) (sym named) fits) room,
        named,
      )
      (read_payload-Received after type flags payload rest m opened.1 opened.2)
  where
    hdr : List ℕ
    hdr = header type flags (length payload)

    after : Conn
    after = (conn_read_all c frame_header_size).2

    opened :
        (conn_read_all c frame_header_size ≡ (true, hdr, after))
        × (after.incoming ≡ payload ++ rest)
        × Lively after.ssl after.calls (length payload + m)
    opened =
        read_exact c hdr (payload ++ rest) (length payload + m) (e ∙ append_assoc hdr payload rest)
          lively
