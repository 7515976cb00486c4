-- ===== src/Sha256/Tests.antt =====
-- The test vectors of FIPS 180-4, and the theorems at concrete inputs.
use distributed_software_upd.Prelude.{
  ℕ, ◌+◌, ◌%◌, ◌<◌, ◌≡◌, refl, some, [], ◌∷◌, ◌++◌, codes, replicate, arith,
}
use distributed_software_upd.Sha256.{
  sha256_init, sha256_update, sha256_buffer, sha256_buffer_hex, update_byte, fill, put_bytes,
  digest_bytes, length_bytes,
}
use distributed_software_upd.Sha256.Compress.{transform}
use distributed_software_upd.Sha256.Hex.{bytes_to_hex, hex_to_bytes, hex_loop, hex_nibble}
use distributed_software_upd.Sha256.HexLaws.{hex_to_bytes-bytes_to_hex}
use distributed_software_upd.Sha256.Padding.{sha256_buffer-padding}

sha256_abc :
    sha256_buffer_hex (codes "abc")
    ≡ codes "ba7816bf8f01cfea414140de5dae2223b00361a396177a9cb410ff61f20015ad"
unfolding sha256_buffer_hex update_byte fill put_bytes transform
sha256_abc = refl

sha256_empty :
    sha256_buffer_hex [] ≡ codes "e3b0c44298fc1c149afbf4c8996fb92427ae41e4649b934ca495991b7852b855"
unfolding sha256_buffer_hex update_byte fill put_bytes transform
sha256_empty = refl

-- 56 bytes: the padding needs a second block.
sha256_two_blocks :
    sha256_buffer_hex (codes "abcdbcdecdefdefgefghfghighijhijkijkljklmklmnlmnomnopnopq")
    ≡ codes "248d6a61d20638b8e5c026930c3e6039a33ce45964ff2167f6ecedd419db06c1"
unfolding sha256_buffer_hex update_byte fill put_bytes transform
sha256_two_blocks = refl

sha256_buffer-padding_example :
    (k : ℕ) × (sha256_buffer (codes "abc")
      ≡ digest_bytes
          (sha256_update sha256_init
            (codes "abc" ++ 0x80 ∷ (replicate k 0 ++ length_bytes 24))).state)
    × ((3 + 1 + k + 8) % 64 ≡ 0)
    × (k < 64)
sha256_buffer-padding_example = sha256_buffer-padding (codes "abc") (omega arith)

hex_to_bytes-bytes_to_hex_example :
    hex_to_bytes (bytes_to_hex (7 ∷ 255 ∷ [])) 2 ≡ some (7 ∷ 255 ∷ [])
hex_to_bytes-bytes_to_hex_example = hex_to_bytes-bytes_to_hex (7 ∷ 255 ∷ []) (omega arith)

reads_upper_case : hex_to_bytes (codes "FF0a") 2 ≡ some (255 ∷ 10 ∷ [])
unfolding hex_to_bytes hex_loop hex_nibble
reads_upper_case = refl
