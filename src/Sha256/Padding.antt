-- ===== src/Sha256/Padding.antt =====
-- `sha256_final` hashes the padding that the standard prescribes.
use distributed_software_upd.Prelude.{
  ℕ, zero, suc, ◌+◌, ◌-◌, ◌*◌, ◌%◌, ◌^◌, ◌≤◌, ◌<◌, ◌≡◌, refl, sym, ap, ◌∙◌, true, false, inl, inr,
  List, [], ◌∷◌, ◌++◌, ltb, ◌==◌, if◌then◌else◌, length, length-replicate, set, replicate, arith,
  Bool-cases, append_assoc,
}
use distributed_software_upd.Sha256.Compress.{transform}
use distributed_software_upd.Sha256.{
  Ctx, sha256_init, update_byte, sha256_update, store, flush, fill, put_bytes, length_bytes,
  final_state, digest_bytes, sha256_buffer,
}
use distributed_software_upd.Sha256.Stream.{sha256_update-append, HasRead, sha256_update-HasRead}

fill-put_bytes : (block : List ℕ) (i n : ℕ) → fill block i n ≡ put_bytes block i (replicate n 0)
unfolding fill put_bytes
fill-put_bytes block i zero = refl
fill-put_bytes block i (suc n) = fill-put_bytes (set block i 0) (i + 1) n

-- Bytes that do not fill the block are stored.
update-stores :
    (c : Ctx) (bytes : List ℕ)
    → c.data_len + length bytes ≤ 63
    → sha256_update c bytes ≡ record c {
      block = put_bytes c.block c.data_len bytes;
      data_len = c.data_len + length bytes;
    }
unfolding sha256_update update_byte put_bytes
update-stores c [] h = ground arith
update-stores c (b ∷ bytes) h =
    let t : (c.data_len + 1 == 64) ≡ false = ground arith in
    let e : c.data_len + 1 + length bytes ≡ c.data_len + suc (length bytes) = omega arith in
    rw (t, if◌then◌else◌, update-stores (store c b) bytes (omega arith), e) refl

-- Bytes that fill the block are stored, and the block is hashed.
update-flushes :
    (c : Ctx) (b : ℕ) (bytes : List ℕ)
    → c.data_len + suc (length bytes) ≡ 64
    → sha256_update c (b ∷ bytes)
      ≡ flush (record c { block = put_bytes c.block c.data_len (b ∷ bytes) })
unfolding sha256_update update_byte put_bytes
update-flushes c b [] h =
    let t : (c.data_len + 1 == 64) ≡ true = ground arith in rw (t, if◌then◌else◌) refl
update-flushes c b (x ∷ bytes) h =
    let t : (c.data_len + 1 == 64) ≡ false = ground arith in
    rw (t, if◌then◌else◌) (update-flushes (store c b) x bytes (omega arith))

-- The zeros between 0x80 and the length.
abbrev pub zero_count : ℕ → ℕ
zero_count i = if ltb 56 i then 64 - i + 56 else 56 - i

abbrev pub padding : ℕ → ℕ → List ℕ
padding data_len bits =
    0x80 ∷ (replicate (zero_count (data_len + 1)) 0 ++ length_bytes (bits % 2 ^ 64))

replicate-add : (n m : ℕ) (x : ℕ) → replicate (n + m) x ≡ replicate n x ++ replicate m x
replicate-add zero m x = ap (λ (k : ℕ). replicate k x) {x = 0 + m} {y = m} (omega arith)
replicate-add (suc n) m x =
    let e : suc n + m ≡ suc (n + m) = omega arith in rw e (ap (λ xs. x ∷ xs) (replicate-add n m x))

-- The last block: from a context with 56 bytes stored, the length ends it.
update-length :
    (c : Ctx) (bits : ℕ)
    → c.data_len ≡ 56
    → (sha256_update c (length_bytes bits)).state
      ≡ transform c.state (put_bytes c.block 56 (length_bytes bits))
update-length c bits h = fills c _ _ (omega arith) h
  where
    fills :
        (c : Ctx) (b : ℕ) (bytes : List ℕ)
        → 56 + suc (length bytes) ≡ 64
        → c.data_len ≡ 56
        → (sha256_update c (b ∷ bytes)).state ≡ transform c.state (put_bytes c.block 56 (b ∷ bytes))
    fills c b bytes k h = rw (update-flushes c b bytes (omega arith), h) refl

marked : Ctx → ℕ → List ℕ
marked c n = 0x80 ∷ replicate n 0

put_bytes-marked :
    (c : Ctx) (n : ℕ)
    → put_bytes c.block c.data_len (marked c n)
      ≡ fill (set c.block c.data_len 0x80) (c.data_len + 1) n
unfolding put_bytes marked
put_bytes-marked c n = sym (fill-put_bytes (set c.block c.data_len 0x80) (c.data_len + 1) n)

-- The padding ends in the same block.
final-short :
    (c : Ctx) (bits : ℕ)
    → c.data_len + 1 ≤ 56
    → let block = fill (set c.block c.data_len 0x80) (c.data_len + 1) (56 - (c.data_len + 1)) in
      (sha256_update (sha256_update c (marked c (56 - (c.data_len + 1)))) (length_bytes bits)).state
      ≡ transform c.state (put_bytes block 56 (length_bytes bits))
unfolding marked
final-short c bits h =
    let n = 56 - (c.data_len + 1) in
    let l : length (marked c n) ≡ suc n = ap suc (length-replicate n 0) in
    rw (update-stores c (marked c n) (omega arith)) (
      update-length _ bits (omega arith)
      ∙ ap (λ (b : List ℕ). transform c.state (put_bytes b 56 (length_bytes bits)))
          (put_bytes-marked c n))

-- The padding needs a block more.
final-long :
    (c : Ctx) (bits : ℕ)
    → 56 < c.data_len + 1
    → c.data_len < 64
    → let full = fill (set c.block c.data_len 0x80) (c.data_len + 1) (64 - (c.data_len + 1)) in
      (sha256_update
        (sha256_update (sha256_update c (marked c (64 - (c.data_len + 1)))) (replicate 56 0))
        (length_bytes bits)).state
      ≡ transform (transform c.state full) (put_bytes (fill full 0 56) 56 (length_bytes bits))
unfolding marked
final-long c bits h k =
    let n = 64 - (c.data_len + 1) in
    let l : length (replicate {A = ℕ} n 0) ≡ n = length-replicate {A = ℕ} n 0 in
    rw
      (
        update-flushes c 0x80 (replicate n 0) (omega arith),
        put_bytes-marked c n,
        update-stores
            (flush (record c { block = fill (set c.block c.data_len 0x80) (c.data_len + 1) n }))
            (replicate 56 0) (omega arith),
      )
      (update-length _ bits (omega arith)
        ∙ ap
            (λ (b : List ℕ).
              transform (transform c.state (fill (set c.block c.data_len 0x80) (c.data_len + 1) n))
                (put_bytes b 56 (length_bytes bits)))
            (sym (fill-put_bytes _ 0 56)))

-- `sha256_final` hashes the stored bytes, then a byte 0x80, zeros up to 56 bytes in a block, and
-- the length of the message in bits.
final_state-padding :
    (c : Ctx)
    → c.data_len < 64
    → final_state c ≡ (sha256_update c (padding c.data_len (c.bit_len + c.data_len * 8))).state
unfolding final_state marked
final_state-padding c h = elim (Bool-cases (ltb 56 (c.data_len + 1))) [
  | inl t ↦
      let n = 64 - (c.data_len + 1) in
      let split : replicate (n + 56) 0 ++ len ≡ replicate n 0 ++ (replicate 56 0 ++ len) =
        ap (λ zs. zs ++ len) (replicate-add n 56 0)
        ∙ append_assoc (replicate n 0) (replicate 56 0) len in
      rw (t, if◌then◌else◌)
        (sym (final-long c bits (ground arith) h)
          ∙ ap (λ (d : Ctx). d.state)
              (sym (sha256_update-append (sha256_update c (marked c n)) (replicate 56 0) len)
                ∙ sym (sha256_update-append c (marked c n) (replicate 56 0 ++ len))
                ∙ ap (λ zs. sha256_update c (0x80 ∷ zs)) (sym split)))
  | inr t ↦
      let n = 56 - (c.data_len + 1) in
      rw (t, if◌then◌else◌)
        (sym (final-short c bits (ground arith))
          ∙ ap (λ (d : Ctx). d.state) (sym (sha256_update-append c (marked c n) len)))
]
  where
    bits : ℕ
    bits = (c.bit_len + c.data_len * 8) % 2 ^ 64

    len : List ℕ
    len = length_bytes bits

aligned_count :
    (n bits data_len : ℕ)
    → bits + 8 * data_len ≡ 8 * n
    → bits % 512 ≡ 0
    → data_len < 64
    → (n + 1 + zero_count (data_len + 1) + 8) % 64 ≡ 0
aligned_count n bits data_len e b r = ground arith

-- `sha256_buffer` is the digest of the padded message: the bytes, then 0x80, zeros up to eight
-- bytes short of a full block, and the message's length in bits, all hashed block by block. The
-- message has fewer than 2 ^ 61 bytes.
pub sha256_buffer-padding :
    (bytes : List ℕ)
    → 8 * length bytes < 2 ^ 64
    → (k : ℕ) × (sha256_buffer bytes
        ≡ digest_bytes
            (sha256_update sha256_init
              (bytes ++ 0x80 ∷ (replicate k 0 ++ length_bytes (8 * length bytes)))).state)
      × ((length bytes + 1 + k + 8) % 64 ≡ 0)
      × (k < 64)
unfolding sha256_buffer
sha256_buffer-padding bytes h = (zero_count (c.data_len + 1), same, aligned, ground (arith, v.room))
  where
    c : Ctx
    c = sha256_update sha256_init bytes

    v : HasRead (length bytes) c
    v = sha256_update-HasRead bytes h

    bits : (c.bit_len + c.data_len * 8) % 2 ^ 64 ≡ 8 * length bytes
    bits = omega (arith, v.counted)

    same :
        sha256_buffer bytes
        ≡ digest_bytes
            (sha256_update sha256_init (
              bytes
              ++ 0x80
                ∷ (replicate (zero_count (c.data_len + 1)) 0
                    ++ length_bytes (8 * length bytes)))).state
    same = ap digest_bytes (
        final_state-padding c v.room
        ∙ ap
            (λ (n : ℕ).
              (sha256_update c
                (0x80 ∷ (replicate (zero_count (c.data_len + 1)) 0 ++ length_bytes n))).state)
            bits
        ∙ ap (λ (d : Ctx). d.state) (sym (sha256_update-append sha256_init bytes _)))

    aligned : (length bytes + 1 + zero_count (c.data_len + 1) + 8) % 64 ≡ 0
    aligned = aligned_count (length bytes) c.bit_len c.data_len v.counted v.blocks v.room
