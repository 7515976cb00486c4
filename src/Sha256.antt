-- ===== src/Sha256.antt =====
-- Project_3/Project_3/src/common/sha256.c: SHA-256 over a buffer or a file, and hexadecimal text (the child `Hex`).
-- A byte is a number below 256, and a `uint32_t` one below 2 ^ 32.
pub mod Compress
pub mod Hex
pub mod HexLaws
pub mod Stream
pub mod Padding
mod Tests
use distributed_software_upd.Prelude.{
  ℕ, zero, suc, ◌+◌, ◌-◌, ◌*◌, ◌/◌, ◌%◌, ◌^◌, Bool, true, false, Option, none, some, List, [], ◌∷◌,
  ◌++◌, CString, ltb, ◌==◌, if◌then◌else◌, length, get_or, set, replicate, map,
}
use Compress.{Words, transform, initial_state}
use Hex.{bytes_to_hex}

-- `sha256_ctx_t`
pub record Ctx : Type 0 where
  pub state : Words
  pub bit_len : ℕ
  pub block : List ℕ
  pub data_len : ℕ

-- The array is not set by the source; its bytes are read only once they have been written.
abbrev pub sha256_init : Ctx
sha256_init = record { state = initial_state; bit_len = 0; block = replicate 64 0; data_len = 0 }

abbrev pub flush : Ctx → Ctx
flush c = record c {
  state = transform c.state c.block;
  bit_len = (c.bit_len + 512) % 2 ^ 64;
  data_len = 0;
}

abbrev pub store : Ctx → ℕ → Ctx
store c b = record c { block = set c.block c.data_len b; data_len = c.data_len + 1 }

-- One round of the loop of `sha256_update`.
unfoldable pub update_byte : Ctx → ℕ → Ctx
update_byte c b = let s = store c b in if s.data_len == 64 then flush s else s

unfoldable pub sha256_update : Ctx → List ℕ → Ctx
sha256_update c [] = c
sha256_update c (b ∷ bytes) = sha256_update (update_byte c b) bytes

-- `data[i++] = 0`, `n` times; `memset` too.
unfoldable pub fill : List ℕ → ℕ → ℕ → List ℕ
fill block i zero = block
fill block i (suc n) = fill (set block i 0) (i + 1) n

-- The eight bytes at index 56.
abbrev pub length_bytes : ℕ → List ℕ
length_bytes n =
    n / 2 ^ 56 % 256
    ∷ n / 2 ^ 48 % 256
    ∷ n / 2 ^ 40 % 256
    ∷ n / 2 ^ 32 % 256
    ∷ n / 2 ^ 24 % 256
    ∷ n / 2 ^ 16 % 256
    ∷ n / 2 ^ 8 % 256
    ∷ n % 256
    ∷ []

unfoldable pub put_bytes : List ℕ → ℕ → List ℕ → List ℕ
put_bytes block i [] = block
put_bytes block i (b ∷ bytes) = put_bytes (set block i b) (i + 1) bytes

-- The state and the block before the length is put in, from a block with 0x80 at index `i - 1`.
abbrev pub pad_zeros : Words → List ℕ → ℕ → Words × List ℕ
pad_zeros state block i =
    if ltb 56 i
    then (let full = fill block i (64 - i) in (transform state full, fill full 0 56))
    else (state, fill block i (56 - i))

unfoldable pub final_state : Ctx → Words
final_state c =
    let i = c.data_len + 1 in
    let (state, block) = pad_zeros c.state (set c.block c.data_len 0x80) i in
    transform state (put_bytes block 56 (length_bytes ((c.bit_len + c.data_len * 8) % 2 ^ 64)))

abbrev word_bytes : ℕ → List ℕ
word_bytes w = w / 2 ^ 24 % 256 ∷ w / 2 ^ 16 % 256 ∷ w / 2 ^ 8 % 256 ∷ w % 256 ∷ []

abbrev pub digest_bytes : Words → List ℕ
digest_bytes s =
    word_bytes s.a
    ++ (word_bytes s.b
        ++ (word_bytes s.c
            ++ (word_bytes s.d
                ++ (word_bytes s.e ++ (word_bytes s.f ++ (word_bytes s.g ++ word_bytes s.h))))))

unfoldable pub sha256_final : Ctx → List ℕ
unfolding final_state
sha256_final c = digest_bytes (final_state c)

unfoldable pub sha256_buffer : List ℕ → List ℕ
unfolding sha256_update sha256_final
sha256_buffer bytes = sha256_final (sha256_update sha256_init bytes)

unfoldable pub sha256_buffer_hex : List ℕ → CString
unfolding sha256_buffer bytes_to_hex
sha256_buffer_hex bytes = bytes_to_hex (sha256_buffer bytes)

abbrev pub read_size : ℕ
read_size = 65536

-- The loop over `fread`, on what its calls return: it ends behind the first short read.
unfoldable pub read_loop : Ctx → List (List ℕ) → Ctx
unfolding sha256_update
read_loop c [] = c
read_loop c (bytes ∷ reads) = elim (ltb (length bytes) read_size) [
  | true ↦ sha256_update c bytes
  | false ↦ read_loop (sha256_update c bytes) reads
]

-- A file that can be opened, as what the reads return and whether `ferror` is set at the end.
pub record Reads : Type 0 where
  pub chunks : List (List ℕ)
  pub failed : Bool

unfoldable pub sha256_file_hex : Option Reads → Option CString
unfolding read_loop sha256_final bytes_to_hex
sha256_file_hex none = none
sha256_file_hex (some r) =
    if r.failed then none else some (bytes_to_hex (sha256_final (read_loop sha256_init r.chunks)))
