-- ===== src/Download/Served.antt =====
-- A client's receiving loop against what `pkg_stream_file` puts on the wire.
use distributed_software_upd.Prelude.{
  ℕ, ◌+◌, ◌-◌, ◌^◌, ◌<◌, ◌≤◌, ◌≡◌, refl, sym, subst, ap, ◌∙◌, true, some, List, [], ◌∷◌, ◌++◌,
  length-append, codes, ◌==◌, if◌then◌else◌, length, take, drop, arith,
}
use distributed_software_upd.Net.Progress.{Lively}
use distributed_software_upd.Protocol.{header, msg_data, msg_transfer_done, frame_header_size}
use distributed_software_upd.Protocol.Fields.{kv_get}
use distributed_software_upd.Protocol.Frames.{frame, length-header, drop-append}
use distributed_software_upd.Session.{c_text}
use distributed_software_upd.Package.Stream.{
  data_frames, join, AreChunks, take-add, pkg_stream_file_lem, IsStreamed,
}
use distributed_software_upd.Package.{
  min_chunk_size, max_chunk_size, PackageFile, Transfer, pkg_file_size, pkg_stream_file,
}
use distributed_software_upd.Download.{Client, Update, Round, same_sha, receive_loop}
use distributed_software_upd.Download.Transfer.{
  AreQuiet, bytes_of_frames, Filled, receive_loop-Filled,
}

length-data_frames :
    (left : ℕ) (ps : List (List ℕ)) → length (data_frames left ps) ≡ bytes_of_frames ps
length-data_frames left [] = refl
length-data_frames left (p ∷ ps) =
    let flags : ℕ = if length p == left then 1 else 0 in
    omega (
      arith,
      length-append (frame msg_data flags p) (data_frames (left - length p) ps),
      length-append (header msg_data flags (length p)) p,
      length-header msg_data flags (length p),
      length-data_frames (left - length p) ps,
    )

few_pieces : (most : ℕ) (ps : List (List ℕ)) → AreChunks most ps → length ps ≤ length (join ps)
few_pieces most [] h = omega arith
few_pieces most (p ∷ ps) h =
    let pos = h.0.0 in omega (arith, few_pieces most ps h.1, length-append p (join ps), pos)

streamed_part :
    (u : Update) (file : List ℕ) (offset : ℕ) (t r : Transfer) (c : Client) (rounds : ℕ)
    (rs : List Round) (flags : ℕ) (text rest : List ℕ)
    → u.size < 2 ^ 64
    → offset ≤ u.size
    → min_chunk_size ≤ u.chunk
    → u.chunk ≤ max_chunk_size
    → IsStreamed u.size u.chunk offset (drop offset file) t r
    → c.conn.incoming
      ≡ drop (length t.channel.conn.outgoing) r.channel.conn.outgoing
        ++ (frame msg_transfer_done flags text ++ rest)
    → Lively c.conn.ssl c.conn.calls (length c.conn.incoming)
    → c.disk u.part_path ≡ some (take offset file)
    → length text ≤ 1024
    → same_sha u.sha (kv_get (c_text text) (codes "sha256") 65) ≡ true
    → AreQuiet u.chunk rs
    → u.size - offset < length rs
    → Filled u (take u.size file) (receive_loop u rounds rs offset c)
streamed_part u file offset t r c rounds rs flags text rest small le lo hi st wire lively part short
      same quiet enough =
    let ps = st.pieces in
    let all = st.all in
    let left = u.size - offset in
    let done = frame msg_transfer_done flags text in
    let few = few_pieces u.chunk ps st.chunked in
    let sent : drop (length t.channel.conn.outgoing) r.channel.conn.outgoing ≡ data_frames left ps =
      ap (drop (length t.channel.conn.outgoing)) st.written
      ∙ drop-append t.channel.conn.outgoing (data_frames left ps) in
    let wire' : c.conn.incoming ≡ data_frames left ps ++ (done ++ rest) =
      wire ∙ ap (λ bs. bs ++ (done ++ rest)) sent in
    let bytes : length c.conn.incoming
        ≡ bytes_of_frames ps + (frame_header_size + (length text + length rest)) =
      omega (
        arith,
        ap length wire',
        length-append (data_frames left ps) (done ++ rest),
        length-data_frames left ps,
        length-append done rest,
        length-append (header msg_transfer_done flags (length text)) text,
        length-header msg_transfer_done flags (length text),
      ) in
    let whole : take offset file ++ join ps ≡ take u.size file =
      ap (λ bs. take offset file ++ bs) st.whole
      ∙ sym (take-add offset left file)
      ∙ ap (λ (n : ℕ). take n file) (omega arith) in
    subst (λ bs. Filled u bs (receive_loop u rounds rs offset c)) whole
      (receive_loop-Filled u small (omega arith) rounds ps rs offset (length rest) left flags text
        rest (take offset file) c quiet (omega (arith, few, all, enough)) st.chunked
        (omega (arith, all, le)) short (omega (arith, short, lo)) same wire'
        (subst (Lively c.conn.ssl c.conn.calls) bytes lively) part)

-- The server's `pkg_stream_file` against the client's loop: where it returned 0 for the bytes from
-- `offset` on, and TRANSFER_DONE with the client's checksum, in at most 1024 bytes, follows what it
-- wrote, a client whose part is the first `offset` bytes ends the loop with the package, up to its
-- size of 64 bits, in the part. Both use one chunk size; on the client's side nobody pauses or stops,
-- its reads and writes do not fail, and the loop has more rounds than bytes are missing.
pub receive_loop-pkg_stream_file :
    (u : Update) (f : PackageFile) (offset : ℕ) (t : Transfer) (c : Client) (rounds : ℕ)
    (rs : List Round) (flags : ℕ) (text rest : List ℕ)
    → u.size < 2 ^ 64
    → pkg_file_size f.stat ≡ some u.size
    → (pkg_stream_file f offset u.chunk t).0 ≡ true
    → let out = (pkg_stream_file f offset u.chunk t).1.channel.conn.outgoing in
      c.conn.incoming
        ≡ drop (length t.channel.conn.outgoing) out ++ (frame msg_transfer_done flags text ++ rest)
      → Lively c.conn.ssl c.conn.calls (length c.conn.incoming)
      → c.disk u.part_path ≡ some (take offset f.content)
      → length text ≤ 1024
      → same_sha u.sha (kv_get (c_text text) (codes "sha256") 65) ≡ true
      → AreQuiet u.chunk rs
      → u.size - offset < length rs
      → Filled u (take u.size f.content) (receive_loop u rounds rs offset c)
receive_loop-pkg_stream_file u f offset t c rounds rs flags text rest small sized ok wire lively
      part short same quiet enough =
    let (size, e, le, lo, hi, st) = pkg_stream_file_lem f offset u.chunk t ok in
    let z : size ≡ u.size = cc in
    let r = (pkg_stream_file f offset u.chunk t).1 in
    streamed_part u f.content offset t r c rounds rs flags text rest small (omega arith) lo hi
      (subst (λ n. IsStreamed n u.chunk offset (drop offset f.content) t r) z st) wire lively part
      short same quiet enough
