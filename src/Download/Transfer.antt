-- ===== src/Download/Transfer.antt =====
-- A client's receiving loop on DATA frames and TRANSFER_DONE.
use distributed_software_upd.Prelude.{
  ℕ, ◌+◌, ◌-◌, ◌%◌, ◌^◌, ◌<◌, ◌≤◌, ◌≡◌, refl, sym, subst, ap, ◌∙◌, ◌⊎◌, inl, inr, true, false, some,
  List, [], ◌∷◌, ◌++◌, append_assoc, append-nil, length-append, codes, ltb, ◌==◌, if◌then◌else◌,
  length, str_eq_self, arith,
}
use distributed_software_upd.Net.Progress.{Lively}
use distributed_software_upd.Protocol.{msg_data, msg_transfer_done, frame_header_size, proto_recv}
use distributed_software_upd.Protocol.Fields.{kv_get}
use distributed_software_upd.Protocol.Frames.{frame, proto_recv-frame}
use distributed_software_upd.Session.{c_text}
use distributed_software_upd.Package.Stream.{data_frames, join, AreChunks}
use distributed_software_upd.Download.{
  Attempt, Client, Update, Disk, append_file, Round, goes_on, complete, same_sha, take_frame,
  take_data, take_done, round_of, receive_loop,
}

-- Nobody asks for anything, and `fwrite` takes a whole chunk.
pub record IsQuiet (most : ℕ) (r : Round) : Type 0 where
  pub no_pause : r.pause ≡ false
  pub no_stop : r.stop ≡ false
  pub takes : most ≤ r.writes

abbrev pub AreQuiet : ℕ → List Round → Type 0
AreQuiet most [] = Unit {0}
AreQuiet most (r ∷ rs) = IsQuiet most r × AreQuiet most rs

-- The bytes that the frames of the pieces take.
abbrev pub bytes_of_frames : List (List ℕ) → ℕ
bytes_of_frames [] = 0
bytes_of_frames (p ∷ ps) = frame_header_size + (length p + bytes_of_frames ps)

-- The loop ends with the part as it was and some bytes behind it.
abbrev pub Filled : Update → List ℕ → (Attempt × Client) ⊎ Client → Type 0
Filled u bytes (inl r) = ⊥
Filled u bytes (inr c) = c.disk u.part_path ≡ some bytes

module _ (u : Update) (small : u.size < 2 ^ 64) (chunk : u.chunk < 2 ^ 32) where
  quiet_round :
      (rounds : ℕ) (r : Round) (received : ℕ) (c : Client)
      → IsQuiet u.chunk r
      → round_of u rounds r received c
        ≡ take_frame u r received (proto_recv c.conn (u.chunk + 1) u.chunk) c
  unfolding round_of
  quiet_round rounds r received c q = simp (q.no_pause, q.no_stop, if◌then◌else◌) refl

  take_data_fits :
      (r : Round) (received : ℕ) (p : List ℕ) (c : Client)
      → received + length p ≤ u.size
      → length p ≤ r.writes
      → take_data u r received p c
        ≡ goes_on (received + length p) (record c { disk = append_file u.part_path p c.disk })
  unfolding take_data
  take_data_fits r received p c room fits =
      let whole : (received + length p) % 2 ^ 64 ≡ received + length p =
        omega (arith, small, room) in
      let below : ltb u.size (received + length p) ≡ false = ground arith in
      let taken : ltb r.writes (length p) ≡ false = ground arith in
      simp (whole, below, taken, if◌then◌else◌) refl

  -- One DATA frame at the front of the stream.
  data_round :
      (rounds : ℕ) (r : Round) (received m : ℕ) (flags : ℕ) (p rest old : List ℕ) (c : Client)
      → IsQuiet u.chunk r
      → length p ≤ u.chunk
      → received + length p ≤ u.size
      → c.conn.incoming ≡ frame msg_data flags p ++ rest
      → Lively c.conn.ssl c.conn.calls (frame_header_size + (length p + m))
      → c.disk u.part_path ≡ some old
      → (next : Client) × (round_of u rounds r received c ≡ goes_on (received + length p) next)
        × (next.conn.incoming ≡ rest)
        × Lively next.conn.ssl next.conn.calls m
        × (next.disk u.part_path ≡ some (old ++ p))
  data_round rounds r received m flags p rest old c q fits room wire lively part =
      let got = proto_recv c.conn (u.chunk + 1) u.chunk in
      let (ok, left, live) =
        proto_recv-frame c.conn msg_data flags p rest (u.chunk + 1) u.chunk m refl
          (omega (arith, chunk, fits)) fits (omega (arith, fits)) wire lively in
      let now : Client = record c { conn = got.1 } in
      let takes = q.takes in
      (
        record now { disk = append_file u.part_path p c.disk },
        quiet_round rounds r received c q
            ∙ ap (λ g. take_frame u r received (g, got.1) c) ok
            ∙ take_data_fits r received p now room (omega (arith, takes, fits)),
        left,
        live,
        rw (str_eq_self u.part_path, part) refl,
      )

  -- TRANSFER_DONE at the front of the stream.
  done_round :
      (rounds : ℕ) (r : Round) (received m flags : ℕ) (text rest : List ℕ) (c : Client)
      → IsQuiet u.chunk r
      → length text ≤ 1024
      → length text ≤ u.chunk
      → same_sha u.sha (kv_get (c_text text) (codes "sha256") 65) ≡ true
      → c.conn.incoming ≡ frame msg_transfer_done flags text ++ rest
      → Lively c.conn.ssl c.conn.calls (frame_header_size + (length text + m))
      → (next : Client) × (round_of u rounds r received c ≡ complete next)
        × (next.conn.incoming ≡ rest)
        × (next.disk ≡ c.disk)
  unfolding take_done
  done_round rounds r received m flags text rest c q short fits same wire lively =
      let got = proto_recv c.conn (u.chunk + 1) u.chunk in
      let (ok, left, live) =
        proto_recv-frame c.conn msg_transfer_done flags text rest (u.chunk + 1) u.chunk m refl
          (omega (arith, short)) short (omega (arith, fits)) wire lively in
      (
        record c { conn = got.1 },
        quiet_round rounds r received c q
            ∙ ap (λ g. take_frame u r received (g, got.1) c) ok
            ∙ simp (same, if◌then◌else◌) refl,
        left,
        refl,
      )

  pub receive_loop-Filled :
      (rounds : ℕ) (ps : List (List ℕ)) (rs : List Round) (received m left flags : ℕ)
      (text rest old : List ℕ) (c : Client)
      → AreQuiet u.chunk rs
      → length ps < length rs
      → AreChunks u.chunk ps
      → received + length (join ps) ≤ u.size
      → length text ≤ 1024
      → length text ≤ u.chunk
      → same_sha u.sha (kv_get (c_text text) (codes "sha256") 65) ≡ true
      → c.conn.incoming ≡ data_frames left ps ++ (frame msg_transfer_done flags text ++ rest)
      → Lively c.conn.ssl c.conn.calls
          (bytes_of_frames ps + (frame_header_size + (length text + m)))
      → c.disk u.part_path ≡ some old
      → Filled u (old ++ join ps) (receive_loop u rounds rs received c)
  unfolding receive_loop
  receive_loop-Filled rounds ps [] received m left flags text rest old c qs more chunks room short
        fits same wire lively part =
      absurd (omega arith)
  receive_loop-Filled rounds [] (r ∷ rs) received m left flags text rest old c qs more chunks room
        short fits same wire lively part =
      let (next, e, _, d) =
        done_round rounds r received m flags text rest c qs.0 short fits same wire
          (subst (Lively c.conn.ssl c.conn.calls) (omega arith) lively) in
      rw (e, receive_loop, Filled)
        (ap (λ (x : Disk). x u.part_path) d ∙ part ∙ ap some (sym (append-nil old)))
  receive_loop-Filled rounds (p ∷ ps) (r ∷ rs) received m left flags text rest old c qs more chunks
        room short fits same wire lively part =
      let len = length-append p (join ps) in
      let (next, e, w, l, d) =
        data_round rounds r received (bytes_of_frames ps + (frame_header_size + (length text + m)))
          (if length p == left then 1 else 0) p
          (data_frames (left - length p) ps ++ (frame msg_transfer_done flags text ++ rest)) old c
          qs.0 chunks.0.1 (omega (arith, room, len))
          (wire
            ∙ append_assoc (frame msg_data (if length p == left then 1 else 0) p)
                (data_frames (left - length p) ps) _)
          (subst (Lively c.conn.ssl c.conn.calls) (omega arith) lively) part in
      rw (e, receive_loop)
        (subst (λ bs. Filled u bs (receive_loop u rounds rs (received + length p) next))
          (append_assoc old p (join ps))
          (receive_loop-Filled rounds ps rs (received + length p) m (left - length p) flags text
            rest (old ++ p) next qs.1 (omega arith) chunks.1 (omega (arith, room, len)) short fits
            same w l d))
