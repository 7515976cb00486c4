-- ===== src/Package/Stream.antt =====
-- What a package that was streamed looks like on the wire.
use distributed_software_upd.Prelude.{
  ℕ, zero, suc, ◌+◌, ◌-◌, ◌<◌, ◌≤◌, ◌≡◌, refl, sym, ap, ◌∙◌, inl, inr, Bool, true, false, ◌&&◌,
  ◌||◌, not, some, List, [], ◌∷◌, ◌++◌, append_assoc, append-nil, length-append, length-take, min,
  ltb, ◌==◌, if◌then◌else◌, length, take, drop, arith, Bool-cases, Option-cases,
}
use distributed_software_upd.Protocol.{msg_data}
use distributed_software_upd.Protocol.Frames.{frame, proto_send-frame}
use distributed_software_upd.Package.Quiet.{handle_pause_if_requested-outgoing}
use distributed_software_upd.Package.{
  PackageFile, Transfer, handle_pause_if_requested, send_chunk, stream_loop, open_and_stream,
  pkg_stream_file, pkg_file_size, min_chunk_size, max_chunk_size,
}

-- DATA frames of the pieces of the last `left` bytes: the one that ends them has FLAG_LAST_CHUNK.
abbrev pub data_frames : ℕ → List (List ℕ) → List ℕ
data_frames left [] = []
data_frames left (p ∷ ps) =
    frame msg_data (if length p == left then 1 else 0) p ++ data_frames (left - length p) ps

abbrev pub join : List (List ℕ) → List ℕ
join [] = []
join (p ∷ ps) = p ++ join ps

-- No piece is empty, and none is longer than a chunk.
abbrev pub AreChunks : ℕ → List (List ℕ) → Type 0
AreChunks most [] = Unit {0}
AreChunks most (p ∷ ps) = ((0 < length p) × (length p ≤ most)) × AreChunks most ps

-- From `t` to `r`, the bytes of the file behind the `sent` first ones, `left`, went out in chunks,
-- up to the file's size, and they are counted.
pub record IsStreamed (size most sent : ℕ) (left : List ℕ) (t r : Transfer) : Type 0 where
  pub pieces : List (List ℕ)
  pub chunked : AreChunks most pieces
  pub whole : join pieces ≡ take (size - sent) left
  pub all : length (join pieces) ≡ size - sent
  pub written :
      r.channel.conn.outgoing ≡ t.channel.conn.outgoing ++ data_frames (size - sent) pieces
  pub counted : r.bytes_sent ≡ t.bytes_sent + (size - sent)

take_none : (n : ℕ) → take {A = ℕ} n [] ≡ []
take_none zero = refl
take_none (suc n) = refl

pub take-add : (n m : ℕ) (xs : List ℕ) → take (n + m) xs ≡ take n xs ++ take m (drop n xs)
take-add zero m xs = ap (λ (k : ℕ). take k xs) (omega arith)
take-add (suc n) m [] = take_none (suc n + m) ∙ sym (take_none m)
take-add (suc n) m (x ∷ xs) =
    let e : suc n + m ≡ suc (n + m) = omega arith in
    ap (λ (k : ℕ). take k (x ∷ xs)) e ∙ ap (λ ys. x ∷ ys) (take-add n m xs)

take_again : (m : ℕ) (xs : List ℕ) → take (length (take m xs)) xs ≡ take m xs
take_again zero xs = refl
take_again (suc m) [] = refl
take_again (suc m) (x ∷ xs) = ap (λ ys. x ∷ ys) (take_again m xs)

send_chunk_lem :
    (size sent : ℕ) (bytes : List ℕ) (t : Transfer)
    → let (ok, next) = send_chunk size sent bytes t in
      ok ≡ true
      → (next.channel.conn.outgoing
          ≡ t.channel.conn.outgoing ++ frame msg_data (if sent == size then 1 else 0) bytes)
        × (next.bytes_sent ≡ t.bytes_sent + length bytes)
unfolding send_chunk
send_chunk_lem size sent bytes t h = (
  proto_send-frame t.channel.conn msg_data (if sent == size then 1 else 0) bytes h,
  rw (h, if◌then◌else◌) refl,
)

-- Nothing is left to send.
nothing_left :
    (size most sent : ℕ) (left : List ℕ) (t : Transfer)
    → ltb sent size ≡ false
    → IsStreamed size most sent left t t
nothing_left size most sent left t h =
    let z : size - sent ≡ 0 = ground arith in
    record {
      pieces = [];
      chunked = tt;
      whole = rw z refl;
      all = rw z refl;
      written = sym (append-nil t.channel.conn.outgoing);
      counted = omega arith;
    }

-- One chunk, and the rest.
chunk_more :
    (size most sent : ℕ) (left bytes : List ℕ) (t next r : Transfer)
    → bytes ≡ take (length bytes) left
    → 0 < length bytes
    → length bytes ≤ most
    → sent + length bytes ≤ size
    → next.channel.conn.outgoing
      ≡ t.channel.conn.outgoing
        ++ frame msg_data (if (sent + length bytes) == size then 1 else 0) bytes
    → next.bytes_sent ≡ t.bytes_sent + length bytes
    → IsStreamed size most (sent + length bytes) (drop (length bytes) left) next r
    → IsStreamed size most sent left t r
chunk_more size most sent left bytes t next r b pos short room w c s =
    let n = length bytes in
    let split : size - sent ≡ n + (size - (sent + n)) = omega arith in
    let less : size - sent - n ≡ size - (sent + n) = omega arith in
    let same : (sent + n == size) ≡ (n == size - sent) = ground arith in
    let ends : ℕ = if sent + n == size then 1 else 0 in
    let ends' : ℕ = if n == size - sent then 1 else 0 in
    let flag : ends ≡ ends' = ap (λ b. if b then 1 else 0) same in
    let rest = data_frames (size - (sent + n)) s.pieces in
    let out = t.channel.conn.outgoing in
    record {
      pieces = bytes ∷ s.pieces;
      chunked = ((pos, short), s.chunked);
      whole =
          rw (s.whole, split)
            (ap (λ xs. xs ++ take (size - (sent + n)) (drop n left)) b
              ∙ sym (take-add n (size - (sent + n)) left));
      all = omega (arith, s.all, length-append bytes (join s.pieces));
      written =
          s.written
          ∙ ap (λ o. o ++ rest) w
          ∙ append_assoc out (frame msg_data ends bytes) rest
          ∙ ap (λ (k : ℕ). out ++ (frame msg_data k bytes ++ rest)) flag
          ∙ ap (λ (k : ℕ). out ++ (frame msg_data ends' bytes ++ data_frames k s.pieces))
              (sym less);
      counted = omega (arith, s.counted);
    }

stream_loop-IsStreamed :
    (size most sent : ℕ) (reads : List (ℕ × Bool)) (left : List ℕ) (t : Transfer)
    → let (ok, r) = stream_loop size most reads sent left t in
      ok ≡ true → IsStreamed size most sent left t r
unfolding stream_loop
stream_loop-IsStreamed size most sent [] left t = elim (Bool-cases (ltb sent size)) [
  | inl e ↦ rw (e, stream_loop) (λ h. absurd (cc))
  | inr e ↦ rw (e, stream_loop) (λ h. nothing_left size most sent left t e)
]
stream_loop-IsStreamed size most sent ((n, err) ∷ reads) left t =
    elim (Bool-cases (ltb sent size)) [
      | inr e ↦ rw (e, stream_loop) (λ h. nothing_left size most sent left t e)
      | inl e ↦
          let paused = handle_pause_if_requested t.channel in
          let want = min (size - sent) most in
          let bytes = take (min n want) left in
          let now : Transfer = record t { channel = paused.1 } in
          let tried = send_chunk size (sent + length bytes) bytes now in
          elim (Bool-cases (paused.0 && ltb 0 (length bytes))) [
            | inr p ↦ rw (e, stream_loop, p) (λ h. absurd (cc))
            | inl p ↦ elim (Bool-cases (tried.0 && not (ltb (length bytes) want && err))) [
              | inr q ↦ rw (e, stream_loop, p, q) (λ h. absurd (cc))
              | inl q ↦
                  rw (e, stream_loop, p, q)
                    (λ h.
                      let later =
                        stream_loop-IsStreamed size most (sent + length bytes) reads
                          (drop (length bytes) left) tried.1 h in
                      let later_end =
                        (stream_loop size most reads (sent + length bytes)
                          (drop (length bytes) left) tried.1).1 in
                      let e_lt : sent < size = ground arith in
                      let ok : tried.0 ≡ true = ground arith in
                      let pos : 0 < length bytes = ground arith in
                      let fits = length-take (min n want) left in
                      let (w, c) = send_chunk_lem size (sent + length bytes) bytes now ok in
                      let flags : ℕ = if (sent + length bytes) == size then 1 else 0 in
                      let quiet = handle_pause_if_requested-outgoing t.channel in
                      chunk_more size most sent left bytes t tried.1 later_end
                        (sym (take_again (min n want) left)) pos (omega arith) (omega (arith, e_lt))
                        (w ∙ ap (λ o. o ++ frame msg_data flags bytes) quiet) c later)
            ]
          ]
    ]

-- Where `pkg_stream_file` returns 0, the bytes of the file from `offset` to its size went out, in
-- order, each once, in DATA frames of one byte to a chunk each, of which exactly the last has
-- FLAG_LAST_CHUNK; nothing else was written, whatever pauses the client made; and `bytes_sent`
-- counts them. The chunk size was within its limits.
pub pkg_stream_file_lem :
    (f : PackageFile) (offset most : ℕ) (t : Transfer)
    → let (ok, r) = pkg_stream_file f offset most t in
      ok ≡ true
      → (size : ℕ) × (pkg_file_size f.stat ≡ some size)
        × (offset ≤ size)
        × (min_chunk_size ≤ most)
        × (most ≤ max_chunk_size)
        × IsStreamed size most offset (drop offset f.content) t r
unfolding pkg_stream_file open_and_stream
pkg_stream_file_lem f offset most t = elim (Option-cases (pkg_file_size f.stat)) [
  | inl e ↦ rw (e, pkg_stream_file) (λ h. absurd (cc))
  | inr (size, e) ↦
      elim (Bool-cases (ltb size offset || ltb most min_chunk_size || ltb max_chunk_size most)) [
        | inl p ↦ rw (e, pkg_stream_file, p, if◌then◌else◌) (λ h. absurd (cc))
        | inr p ↦ elim (Bool-cases (f.opens && f.seeks && f.allocates)) [
          | inl q ↦
              rw (e, pkg_stream_file, p, q, if◌then◌else◌)
                (λ h. (
                  size,
                  refl,
                  ground arith,
                  ground arith,
                  ground arith,
                  stream_loop-IsStreamed size most offset f.reads (drop offset f.content) t h,
                ))
          | inr q ↦ rw (e, pkg_stream_file, p, q, if◌then◌else◌) (λ h. absurd (cc))
        ]
      ]
]
