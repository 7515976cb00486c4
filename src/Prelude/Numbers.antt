-- ===== src/Prelude/Numbers.antt =====
-- Signed numbers, and numbers in decimal text: `%llu`, `strtoull` and `strtol`.
use Prim.Native.Nat.{ℕ, zero, suc, ◌+◌, ◌-◌, ◌*◌, ◌/◌, ◌%◌, ◌^◌, ◌≤◌, ◌<◌, min}
use mathlib.Core.Path.{◌≡◌, refl, ap, ◌∙◌}
use mathlib.Core.Bool.{Bool, true, false}
use mathlib.Core.Option.{Option, none, some}
use mathlib.Core.List.{[], ◌∷◌, ◌++◌, append_assoc}
use native.Mathlib.Omega.{arith}
use native.Mathlib.Decide.{dec_lt}
use native.Mathlib.Nat.{pow-suc}
use distributed_software_upd.Prelude.Lists.{length, length-append}
use distributed_software_upd.Prelude.Tests.{◌==◌, ltb, leb, if◌then◌else◌}
use distributed_software_upd.Prelude.Text.{CString, is_digit, strip_leading}

-- `negsuc n` is -(n + 1).
pub data ℤ : Type 0 where
  pos : ℕ → ℤ
  negsuc : ℕ → ℤ

abbrev pub ltb_ℤ : ℤ → ℤ → Bool
ltb_ℤ (pos a) (pos b) = ltb a b
ltb_ℤ (pos a) (negsuc b) = false
ltb_ℤ (negsuc a) (pos b) = true
ltb_ℤ (negsuc a) (negsuc b) = ltb b a

-- `printf("%llu", n)`, with fuel: `n + 1` rounds are enough.
unfoldable pub decimal_fuel : ℕ → ℕ → CString
decimal_fuel zero n = []
decimal_fuel (suc f) n = elim (ltb n 10) [
  | true ↦ (b'0' + n) ∷ []
  | false ↦ decimal_fuel f (n / 10) ++ (b'0' + n % 10) ∷ []
]

unfoldable pub decimal : ℕ → CString
unfolding decimal_fuel
decimal n = decimal_fuel (suc n) n

-- The digits at the front of a text, and what follows them.
unfoldable pub scan_digits : ℕ → CString → ℕ × CString
scan_digits acc [] = (acc, [])
scan_digits acc (c ∷ s) = elim (is_digit c) [
  | true ↦ scan_digits (acc * 10 + (c - b'0')) s
  | false ↦ (acc, c ∷ s)
]

-- A number needs one digit at least.
unfoldable pub scan_number : CString → Option (ℕ × CString)
unfolding scan_digits
scan_number [] = none
scan_number (c ∷ s) = if is_digit c then some (scan_digits 0 (c ∷ s)) else none

unfoldable pub read_sign : CString → Bool × CString
read_sign [] = (false, [])
read_sign (c ∷ s) =
    if c == b'-' then (true, s) else if c == b'+' then (false, s) else (false, c ∷ s)

abbrev pub u64_mod : ℕ
u64_mod = 2 ^ 64

-- A magnitude past the range gives ULLONG_MAX; a minus sign negates in 64 bits.
abbrev saturate_u64 : Bool → ℕ → ℕ
saturate_u64 neg n =
    if leb u64_mod n then u64_mod - 1 else if neg then (u64_mod - n) % u64_mod else n

-- `strtoull(s, &end, 10)`: the value, and the text at `end`.
unfoldable pub strtoull : CString → ℕ × CString
unfolding strip_leading read_sign scan_number
strtoull s =
    let (neg, t) = read_sign (strip_leading s) in
    elim (scan_number t) [ none ↦ (0, s) | some (n, rest) ↦ (saturate_u64 neg n, rest) ]

-- A magnitude past the range gives LONG_MIN or LONG_MAX.
abbrev saturate_i64 : Bool → ℕ → ℤ
saturate_i64 true zero = pos 0
saturate_i64 true (suc n) = negsuc (min n (2 ^ 63 - 1))
saturate_i64 false n = pos (min n (2 ^ 63 - 1))

-- `strtol(s, &end, 10)`.
unfoldable pub strtol : CString → ℤ × CString
unfolding strip_leading read_sign scan_number
strtol s =
    let (neg, t) = read_sign (strip_leading s) in
    elim (scan_number t) [ none ↦ (pos 0, s) | some (n, rest) ↦ (saturate_i64 neg n, rest) ]

-- The text does not go on with a digit.
abbrev pub NoDigit : CString → Type 0
NoDigit [] = Unit {0}
NoDigit (c ∷ _) = is_digit c ≡ false

scan_digits-stop : (acc : ℕ) (s : CString) → NoDigit s → scan_digits acc s ≡ (acc, s)
unfolding scan_digits
scan_digits-stop acc [] h = refl
scan_digits-stop acc (c ∷ s) h = rw (h, scan_digits) refl

-- What `decimal` writes begins with a digit.
abbrev pub StartsDigit : CString → Type 0
StartsDigit [] = ⊥
StartsDigit (c ∷ _) = (is_digit c ≡ true) × (b'0' ≤ c) × (c ≤ b'9')

pub StartsDigit-append : (s t : CString) → StartsDigit s → StartsDigit (s ++ t)
StartsDigit-append [] t h = absurd h
StartsDigit-append (c ∷ s) t h = h

decimal_fuel-small : (f n : ℕ) → n < 10 → decimal_fuel (suc f) n ≡ (b'0' + n) ∷ []
unfolding decimal_fuel
decimal_fuel-small f n h = ground arith

decimal_fuel-large :
    (f n : ℕ) → 10 ≤ n → decimal_fuel (suc f) n ≡ decimal_fuel f (n / 10) ++ (b'0' + n % 10) ∷ []
unfolding decimal_fuel
decimal_fuel-large f n h = ground arith

decimal_fuel-StartsDigit : (f n : ℕ) → n < f → StartsDigit (decimal_fuel f n)
decimal_fuel-StartsDigit zero n h = absurd (omega arith)
decimal_fuel-StartsDigit (suc f) n h = elim (dec_lt n 10) [
  | yes p ↦ rw (decimal_fuel-small f n p) (ground arith, omega arith, omega arith)
  | no p ↦ rw (decimal_fuel-large f n (omega arith)) (
      StartsDigit-append (decimal_fuel f (n / 10)) _
        (decimal_fuel-StartsDigit f (n / 10) (omega arith)))
]

scan_digits-digit :
    (acc d : ℕ) (s : CString)
    → d < 10
    → scan_digits acc ((b'0' + d) ∷ s) ≡ scan_digits (acc * 10 + d) s
unfolding scan_digits
scan_digits-digit acc d s h =
    let e : b'0' + d - b'0' ≡ d = omega arith in
    let t : is_digit (b'0' + d) ≡ true = ground arith in rw (t, scan_digits, e)

scan_digits-decimal_fuel :
    (f n : ℕ) (rest : CString)
    → n < f
    → scan_digits 0 (decimal_fuel f n ++ rest) ≡ scan_digits n rest
scan_digits-decimal_fuel zero n rest h = absurd (omega arith)
scan_digits-decimal_fuel (suc f) n rest h = elim (dec_lt n 10) [
  | yes p ↦
      rw (decimal_fuel-small f n p)
        (scan_digits-digit 0 n rest p ∙ ap (λ (k : ℕ). scan_digits k rest) (omega arith))
  | no p ↦
      let e : n / 10 * 10 + n % 10 ≡ n = omega arith in
      rw (
        decimal_fuel-large f n (omega arith),
        append_assoc,
        scan_digits-decimal_fuel f (n / 10) ((b'0' + n % 10) ∷ rest) (omega arith),
        scan_digits-digit (n / 10) (n % 10) rest (omega arith),
        e,
      )
]

-- A text that begins with a digit has no space and no sign to skip.
strtoull-digit :
    (s : CString)
    → StartsDigit s
    → strtoull s ≡ (let (n, rest) = scan_digits 0 s in (saturate_u64 false n, rest))
unfolding strtoull
strtoull-digit [] h = absurd h
strtoull-digit (c ∷ s) h = ground arith

strtol-digit :
    (s : CString)
    → StartsDigit s
    → strtol s ≡ (let (n, rest) = scan_digits 0 s in (saturate_i64 false n, rest))
unfolding strtol
strtol-digit [] h = absurd h
strtol-digit (c ∷ s) h = ground arith

-- `strtoull` reads back what `%llu` wrote, up to the first byte that is no digit.
pub strtoull-decimal :
    (n : ℕ) (rest : CString) → n < u64_mod → NoDigit rest → strtoull (decimal n ++ rest) ≡ (n, rest)
unfolding decimal
strtoull-decimal n rest h d =
    rw
      (
        strtoull-digit (decimal n ++ rest) (
            StartsDigit-append (decimal n) rest (decimal_fuel-StartsDigit (suc n) n (omega arith))),
        scan_digits-decimal_fuel (suc n) n rest (omega arith),
        scan_digits-stop n rest d,
      )
      (ground arith)

-- So does `strtol`.
pub strtol-decimal :
    (n : ℕ) (rest : CString)
    → n < 2 ^ 63
    → NoDigit rest
    → strtol (decimal n ++ rest) ≡ (pos n, rest)
unfolding decimal
strtol-decimal n rest h d =
    rw
      (
        strtol-digit (decimal n ++ rest) (
            StartsDigit-append (decimal n) rest (decimal_fuel-StartsDigit (suc n) n (omega arith))),
        scan_digits-decimal_fuel (suc n) n rest (omega arith),
        scan_digits-stop n rest d,
      )
      (ground arith)

pub decimal-StartsDigit : (n : ℕ) → StartsDigit (decimal n)
unfolding decimal
decimal-StartsDigit n = decimal_fuel-StartsDigit (suc n) n (omega arith)

length-decimal_fuel : (f n k : ℕ) → n < 10 ^ suc k → length (decimal_fuel f n) ≤ suc k
length-decimal_fuel zero n k h = unfold decimal_fuel in omega arith
length-decimal_fuel (suc f) n zero h =
    let p : n < 10 = h in rw (decimal_fuel-small f n p) (omega arith)
length-decimal_fuel (suc f) n (suc k) h = elim (dec_lt n 10) [
  | yes p ↦ rw (decimal_fuel-small f n p) (omega arith)
  | no p ↦
      let q : n / 10 < 10 ^ suc k = omega (arith, pow-suc 10 (suc k)) in
      rw (decimal_fuel-large f n (omega arith)) (
        omega (
          arith,
          length-append (decimal_fuel f (n / 10)) ((b'0' + n % 10) ∷ []),
          length-decimal_fuel f (n / 10) k q,
        ))
]

-- A 64-bit number has twenty digits at most.
pub length-decimal : (n : ℕ) → n < u64_mod → length (decimal n) ≤ 20
unfolding decimal
length-decimal n h = length-decimal_fuel (suc n) n 19 (omega arith)
