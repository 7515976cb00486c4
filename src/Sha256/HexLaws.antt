-- ===== src/Sha256/HexLaws.antt =====
-- Bytes to hexadecimal text and back.
use distributed_software_upd.Prelude.{
  ℕ, zero, suc, ◌+◌, ◌*◌, ◌/◌, ◌%◌, ◌<◌, ◌≡◌, refl, Bool, true, false, ◌&&◌, Option, none, some,
  List, [], ◌∷◌, ◌==◌, if◌then◌else◌, length, get_or, arith,
}
use distributed_software_upd.Sha256.Hex.{hex_nibble, alphabet, bytes_to_hex, hex_loop, hex_to_bytes}

-- A number below 16 is the value of its digit.
digit_ok : ℕ → Bool
digit_ok n = elim (hex_nibble (get_or alphabet n 0)) [ none ↦ false | some m ↦ m == n ]

all_below : ℕ → (ℕ → Bool) → Bool
all_below zero p = true
all_below (suc n) p = p n && all_below n p

all_below-true : (n : ℕ) (p : ℕ → Bool) (x : ℕ) → all_below n p ≡ true → x < n → p x ≡ true
unfolding all_below
all_below-true zero p x h l = absurd (omega arith)
all_below-true (suc n) p x h l = ground (arith, all_below-true n p x)

digits_ok : all_below 16 digit_ok ≡ true
unfolding all_below digit_ok hex_nibble
digits_ok = refl

digit_ok-eq : (o : Option ℕ) (n : ℕ) → elim o [ none ↦ false | some m ↦ m == n ] ≡ true → o ≡ some n
digit_ok-eq none n h = cc
digit_ok-eq (some m) n h = ground arith

hex_nibble-alphabet : (n : ℕ) → n < 16 → hex_nibble (get_or alphabet n 0) ≡ some n
hex_nibble-alphabet n h =
    digit_ok-eq (hex_nibble (get_or alphabet n 0)) n
      (unfold digit_ok in all_below-true 16 digit_ok n digits_ok h)

abbrev pub AreBytes : List ℕ → Type 0
AreBytes [] = Unit {0}
AreBytes (b ∷ bytes) = (b < 256) × AreBytes bytes

hex_loop-bytes_to_hex :
    (bytes : List ℕ) → AreBytes bytes → hex_loop (bytes_to_hex bytes) ≡ some bytes
unfolding hex_loop bytes_to_hex
hex_loop-bytes_to_hex [] h = refl
hex_loop-bytes_to_hex (b ∷ bytes) h =
    let e : b / 16 % 16 * 16 + b % 16 ≡ b = omega arith in
    rw
      (
        hex_nibble-alphabet (b / 16 % 16) (omega arith),
        hex_nibble-alphabet (b % 16) (omega arith),
        hex_loop-bytes_to_hex bytes h.1,
        e,
      )
      refl

length-bytes_to_hex : (bytes : List ℕ) → length (bytes_to_hex bytes) ≡ length bytes * 2
unfolding bytes_to_hex
length-bytes_to_hex [] = refl
length-bytes_to_hex (b ∷ bytes) = omega (arith, length-bytes_to_hex bytes)

-- `hex_to_bytes` reads the text that `bytes_to_hex` wrote back to the same bytes.
pub hex_to_bytes-bytes_to_hex :
    (bytes : List ℕ)
    → AreBytes bytes
    → hex_to_bytes (bytes_to_hex bytes) (length bytes) ≡ some bytes
unfolding hex_to_bytes
hex_to_bytes-bytes_to_hex bytes h =
    let t : (length (bytes_to_hex bytes) == length bytes * 2) ≡ true =
      ground (arith, length-bytes_to_hex bytes) in
    rw (t, if◌then◌else◌) (hex_loop-bytes_to_hex bytes h)
