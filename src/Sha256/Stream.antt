-- ===== src/Sha256/Stream.antt =====
-- Feeding bytes in pieces, and reading a file in pieces.
use distributed_software_upd.Prelude.{
  ℕ, ◌+◌, ◌*◌, ◌%◌, ◌^◌, ◌≤◌, ◌<◌, ◌≡◌, refl, true, false, some, List, [], ◌∷◌, ◌++◌, ltb, length,
  length-set, length-replicate, arith, append-nil,
}
use distributed_software_upd.Sha256.{
  Ctx, sha256_init, update_byte, sha256_update, read_size, read_loop, sha256_file_hex,
  sha256_buffer_hex,
}

-- It does not matter how the bytes are split over calls of `sha256_update`.
pub sha256_update-append :
    (c : Ctx) (xs ys : List ℕ) → sha256_update c (xs ++ ys) ≡ sha256_update (sha256_update c xs) ys
unfolding sha256_update
sha256_update-append c [] ys = refl
sha256_update-append c (x ∷ xs) ys = sha256_update-append (update_byte c x) xs ys

-- What `fread` returns for a file read to its end: full reads, then a short one.
abbrev pub IsWhole : List (List ℕ) → Type 0
IsWhole [] = ⊥
IsWhole (bytes ∷ []) = length bytes < read_size
IsWhole (bytes ∷ (next ∷ reads)) = (read_size ≤ length bytes) × IsWhole (next ∷ reads)

abbrev pub content : List (List ℕ) → List ℕ
content [] = []
content (bytes ∷ reads) = bytes ++ content reads

read_loop-content :
    (c : Ctx) (reads : List (List ℕ))
    → IsWhole reads
    → read_loop c reads ≡ sha256_update c (content reads)
unfolding read_loop
read_loop-content c [] h = absurd h
read_loop-content c (bytes ∷ []) h =
    let t : ltb (length bytes) read_size ≡ true = ground arith in rw (t, read_loop, append-nil) refl
read_loop-content c (bytes ∷ (next ∷ reads)) h =
    let t : ltb (length bytes) read_size ≡ false = ground arith in
    rw (t, read_loop, sha256_update-append)
      (read_loop-content (sha256_update c bytes) (next ∷ reads) h.1)

-- The checksum of a file that is read to its end without an error is the checksum of its content
-- as one buffer.
pub sha256_file_hex_lem :
    (reads : List (List ℕ))
    → IsWhole reads
    → sha256_file_hex (some (record { chunks = reads; failed = false }))
      ≡ some (sha256_buffer_hex (content reads))
unfolding sha256_file_hex sha256_buffer_hex
sha256_file_hex_lem reads h = rw (read_loop-content sha256_init reads h) refl

-- The context after `n` bytes: the array has its 64 places, fewer than 64 of them are taken, and
-- the two counters together count the bytes, `bit_len` those of the blocks that were hashed.
pub record HasRead (n : ℕ) (c : Ctx) : Type 0 where
  pub size : length c.block ≡ 64
  pub room : c.data_len < 64
  pub counted : c.bit_len + 8 * c.data_len ≡ 8 * n
  pub blocks : c.bit_len % 512 ≡ 0

update_byte-HasRead :
    (n : ℕ) (c : Ctx) (b : ℕ)
    → 8 * (n + 1) < 2 ^ 64
    → HasRead n c
    → HasRead (n + 1) (update_byte c b)
unfolding update_byte
update_byte-HasRead n c b h v = ground (arith, length-set c.block c.data_len b)

update-HasRead :
    (n : ℕ) (c : Ctx) (bytes : List ℕ) (m : ℕ)
    → n + length bytes ≡ m
    → 8 * m < 2 ^ 64
    → HasRead n c
    → HasRead m (sha256_update c bytes)
unfolding sha256_update
update-HasRead n c [] m e h v = let e' : n ≡ m = omega arith in rw (← e') v
update-HasRead n c (b ∷ bytes) m e h v =
    update-HasRead (n + 1) (update_byte c b) bytes m (omega arith) h
      (update_byte-HasRead n c b (omega arith) v)

-- After `sha256_init` and any updates of fewer than 2 ^ 61 bytes in all, `data_len` is an index of
-- the array, and `bit_len` with what `data_len` adds is the length of the message in bits.
pub sha256_update-HasRead :
    (bytes : List ℕ)
    → 8 * length bytes < 2 ^ 64
    → HasRead (length bytes) (sha256_update sha256_init bytes)
sha256_update-HasRead bytes h =
    update-HasRead 0 sha256_init bytes (length bytes) (omega arith) h (record {
      size = length-replicate {A = ℕ} 64 0;
      room = omega arith;
      counted = omega arith;
      blocks = refl;
    })
