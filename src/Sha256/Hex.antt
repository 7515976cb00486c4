-- ===== src/Sha256/Hex.antt =====
-- Bytes as hexadecimal text, both ways: Project_3/Project_3/src/common/sha256.c.
use distributed_software_upd.Prelude.{
  ℕ, ◌+◌, ◌-◌, ◌*◌, ◌/◌, ◌%◌, ◌&&◌, Option, none, some, List, [], ◌∷◌, CString, codes, leb, ◌==◌,
  if◌then◌else◌, length, get_or, ◌>>=◌,
}

unfoldable pub hex_nibble : ℕ → Option ℕ
hex_nibble c =
    if leb b'0' c && leb c b'9'
    then some (c - b'0')
    else if leb b'a' c && leb c b'f'
    then some (c - b'a' + 10)
    else if leb b'A' c && leb c b'F'
    then some (c - b'A' + 10)
    else none

abbrev pub alphabet : CString
alphabet = codes "0123456789abcdef"

-- `bytes[i] >> 4` and `bytes[i] & 0x0f` index the alphabet.
unfoldable pub bytes_to_hex : List ℕ → CString
bytes_to_hex [] = []
bytes_to_hex (b ∷ bytes) =
    get_or alphabet (b / 16 % 16) 0 ∷ get_or alphabet (b % 16) 0 ∷ bytes_to_hex bytes

-- The loop, on a text of an even number of characters.
unfoldable pub hex_loop : CString → Option (List ℕ)
unfolding hex_nibble
hex_loop [] = some []
hex_loop (x ∷ []) = none
hex_loop (x ∷ (y ∷ hex)) = do
  hi ← hex_nibble x
  lo ← hex_nibble y
  rest ← hex_loop hex
  some ((hi * 16 + lo) ∷ rest)

unfoldable pub hex_to_bytes : CString → ℕ → Option (List ℕ)
hex_to_bytes hex out_len = if length hex == out_len * 2 then hex_loop hex else none
