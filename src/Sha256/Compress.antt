-- ===== src/Sha256/Compress.antt =====
-- The compression function `sha256_transform` of Project_3/Project_3/src/common/sha256.c, on 32-bit words.
use Prim.Native.Nat.{bit_and, bit_or, bit_xor}
use distributed_software_upd.Prelude.{
  ℕ, zero, suc, ◌+◌, ◌-◌, ◌*◌, ◌/◌, ◌%◌, ◌^◌, List, [], ◌∷◌, ◌++◌, get_or,
}

-- The eight words of `state`, and the variables `a` to `h`.
pub record Words : Type 0 where
  pub a : ℕ
  pub b : ℕ
  pub c : ℕ
  pub d : ℕ
  pub e : ℕ
  pub f : ℕ
  pub g : ℕ
  pub h : ℕ

abbrev pub initial_state : Words
initial_state = record {
  a = 0x6a09e667;
  b = 0xbb67ae85;
  c = 0x3c6ef372;
  d = 0xa54ff53a;
  e = 0x510e527f;
  f = 0x9b05688c;
  g = 0x1f83d9ab;
  h = 0x5be0cd19;
}

abbrev round_constants : List ℕ
round_constants =
    0x428a2f98 ∷ 0x71374491 ∷ 0xb5c0fbcf ∷ 0xe9b5dba5 ∷ 0x3956c25b ∷ 0x59f111f1 ∷ 0x923f82a4
    ∷ 0xab1c5ed5 ∷ 0xd807aa98 ∷ 0x12835b01 ∷ 0x243185be ∷ 0x550c7dc3 ∷ 0x72be5d74 ∷ 0x80deb1fe
    ∷ 0x9bdc06a7 ∷ 0xc19bf174 ∷ 0xe49b69c1 ∷ 0xefbe4786 ∷ 0x0fc19dc6 ∷ 0x240ca1cc ∷ 0x2de92c6f
    ∷ 0x4a7484aa ∷ 0x5cb0a9dc ∷ 0x76f988da ∷ 0x983e5152 ∷ 0xa831c66d ∷ 0xb00327c8 ∷ 0xbf597fc7
    ∷ 0xc6e00bf3 ∷ 0xd5a79147 ∷ 0x06ca6351 ∷ 0x14292967 ∷ 0x27b70a85 ∷ 0x2e1b2138 ∷ 0x4d2c6dfc
    ∷ 0x53380d13 ∷ 0x650a7354 ∷ 0x766a0abb ∷ 0x81c2c92e ∷ 0x92722c85 ∷ 0xa2bfe8a1 ∷ 0xa81a664b
    ∷ 0xc24b8b70 ∷ 0xc76c51a3 ∷ 0xd192e819 ∷ 0xd6990624 ∷ 0xf40e3585 ∷ 0x106aa070 ∷ 0x19a4c116
    ∷ 0x1e376c08 ∷ 0x2748774c ∷ 0x34b0bcb5 ∷ 0x391c0cb3 ∷ 0x4ed8aa4a ∷ 0x5b9cca4f ∷ 0x682e6ff3
    ∷ 0x748f82ee ∷ 0x78a5636f ∷ 0x84c87814 ∷ 0x8cc70208 ∷ 0x90befffa ∷ 0xa4506ceb ∷ 0xbef9a3f7
    ∷ 0xc67178f2 ∷ []

abbrev add32 : ℕ → ℕ → ℕ
add32 x y = (x + y) % 2 ^ 32

-- `x >> n | x << (32 - n)`
rotr : ℕ → ℕ → ℕ
rotr x n = bit_or (x / 2 ^ n) (x * 2 ^ (32 - n) % 2 ^ 32)

-- `~x`
abbrev complement : ℕ → ℕ
complement x = 2 ^ 32 - 1 - x

abbrev xor3 : ℕ → ℕ → ℕ → ℕ
xor3 x y z = bit_xor (bit_xor x y) z

-- `m[i]` for `i < 16`, from the bytes at `4 * i`. Each stands in bits of its own, so `|` is a sum.
block_words : ℕ → List ℕ → ℕ → List ℕ
block_words zero block i = []
block_words (suc n) block i =
    (get_or block i 0 * 2 ^ 24
      + get_or block (i + 1) 0 * 2 ^ 16
      + get_or block (i + 2) 0 * 2 ^ 8
      + get_or block (i + 3) 0)
    ∷ block_words n block (i + 4)

-- `m[i]` from the words before it.
next_word : List ℕ → ℕ → ℕ
unfolding rotr
next_word m i =
    let x = get_or m (i - 15) 0 in
    let y = get_or m (i - 2) 0 in
    let s0 = xor3 (rotr x 7) (rotr x 18) (x / 2 ^ 3) in
    let s1 = xor3 (rotr y 17) (rotr y 19) (y / 2 ^ 10) in
    add32 (add32 (add32 (get_or m (i - 16) 0) s0) (get_or m (i - 7) 0)) s1

extend : ℕ → List ℕ → ℕ → List ℕ
unfolding next_word
extend zero m i = m
extend (suc n) m i = extend n (m ++ next_word m i ∷ []) (i + 1)

round : Words → ℕ → ℕ → Words
unfolding rotr
round v k m =
    let s1 = xor3 (rotr v.e 6) (rotr v.e 11) (rotr v.e 25) in
    let ch = bit_xor (bit_and v.e v.f) (bit_and (complement v.e) v.g) in
    let temp1 = add32 (add32 (add32 (add32 v.h s1) ch) k) m in
    let s0 = xor3 (rotr v.a 2) (rotr v.a 13) (rotr v.a 22) in
    let maj = xor3 (bit_and v.a v.b) (bit_and v.a v.c) (bit_and v.b v.c) in
    let temp2 = add32 s0 maj in
    record {
      a = add32 temp1 temp2;
      b = v.a;
      c = v.b;
      d = v.c;
      e = add32 v.d temp1;
      f = v.e;
      g = v.f;
      h = v.g;
    }

-- The 64 rounds, on `k[i]` and `m[i]`.
rounds : Words → List ℕ → List ℕ → Words
unfolding round
rounds v [] m = v
rounds v (k ∷ ks) [] = v
rounds v (k ∷ ks) (m ∷ ms) = rounds (round v k m) ks ms

add_words : Words → Words → Words
add_words s v = record {
  a = add32 s.a v.a;
  b = add32 s.b v.b;
  c = add32 s.c v.c;
  d = add32 s.d v.d;
  e = add32 s.e v.e;
  f = add32 s.f v.f;
  g = add32 s.g v.g;
  h = add32 s.h v.h;
}

unfoldable pub transform : Words → List ℕ → Words
unfolding rounds extend block_words add_words
transform s block = add_words s (rounds s round_constants (extend 48 (block_words 16 block 0) 16))
