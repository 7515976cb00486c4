-- ===== src/Prelude/Text.antt =====
-- C strings: the bytes before the terminating zero. The functions of <string.h>, <strings.h> and
-- <ctype.h> that the program calls, and its own `trim_text`, which three files repeat.
use Prim.Native.Char.{code}
use Prim.Native.String.{String}
use Prim.Native.Nat.{ℕ, ◌+◌, ◌-◌, ◌<◌}
use mathlib.Core.Path.{◌≡◌, refl}
use mathlib.Core.Logic.{◌↔◌}
use mathlib.Core.Bool.{Bool, true, false, ◌&&◌, ◌||◌}
use mathlib.Core.Option.{Option, none, some}
use mathlib.Core.List.{List, [], ◌∷◌, map, reverse}
use native.Mathlib.Omega.{arith}
use distributed_software_upd.Prelude.Tests.{◌==◌, leb, if◌then◌else◌}
use distributed_software_upd.Prelude.Lists.{length, take, length-take}

abbrev pub CString : Type 0
CString = List ℕ

-- A literal of the source.
abbrev pub codes : String → CString
codes String.[] = []
codes (String.◌∷◌ c s) = code c ∷ codes s

-- `strcmp(a, b) == 0`.
unfoldable pub str_eq : CString → CString → Bool
str_eq [] [] = true
str_eq [] (_ ∷ _) = false
str_eq (_ ∷ _) [] = false
str_eq (x ∷ xs) (y ∷ ys) = (x == y) && str_eq xs ys

pub str_eq-eq : (a b : CString) → str_eq a b ≡ true → a ≡ b
unfolding str_eq
str_eq-eq [] [] h = refl
str_eq-eq [] (_ ∷ _) h = cc
str_eq-eq (_ ∷ _) [] h = cc
str_eq-eq (x ∷ xs) (y ∷ ys) h = ground (arith, str_eq-eq xs ys)

pub str_eq_self : (a : CString) → str_eq a a ≡ true
unfolding str_eq
str_eq_self [] = refl
str_eq_self (x ∷ xs) = ground (arith, str_eq_self xs)

pub str_eq_iff : (a b : CString) → (str_eq a b ≡ true) ↔ (a ≡ b)
str_eq_iff a b = (str_eq-eq a b, λ e. rw e (str_eq_self b))

-- A test for the empty string, `s[0] == '\0'`.
abbrev pub is_empty : CString → Bool
is_empty [] = true
is_empty (_ ∷ _) = false

-- `isdigit`, `isspace` and `tolower` in the C locale.
abbrev pub is_digit : ℕ → Bool
is_digit c = leb b'0' c && leb c b'9'

abbrev pub is_space : ℕ → Bool
is_space c = (c == 32) || (leb 9 c && leb c 13)

unfoldable pub to_lower : ℕ → ℕ
to_lower c = if leb b'A' c && leb c b'Z' then c + 32 else c

-- `strcasecmp(a, b) == 0`.
unfoldable pub str_case_eq : CString → CString → Bool
unfolding to_lower str_eq
str_case_eq a b = str_eq (map to_lower a) (map to_lower b)

-- `strchr`: what stands before the first `c`, and what stands behind it.
unfoldable pub split_at : ℕ → CString → Option (CString × CString)
split_at c [] = none
split_at c (x ∷ s) = elim (x == c) [
  | true ↦ some ([], s)
  | false ↦ elim (split_at c s) [ none ↦ none | some (a, b) ↦ some (x ∷ a, b) ]
]

unfoldable pub has_byte : ℕ → CString → Bool
has_byte c [] = false
has_byte c (x ∷ s) = (x == c) || has_byte c s

-- `s[strcspn(s, "\r\n")] = '\0'`.
unfoldable pub cut_line : CString → CString
cut_line [] = []
cut_line (x ∷ s) = elim ((x == 13) || (x == 10)) [ true ↦ [] | false ↦ x ∷ cut_line s ]

unfoldable pub strip_leading : CString → CString
strip_leading [] = []
strip_leading (x ∷ s) = elim (is_space x) [ true ↦ strip_leading s | false ↦ x ∷ s ]

-- The loop that walks back from the end.
unfoldable pub strip_trailing : CString → CString
unfolding strip_leading
strip_trailing s = reverse (strip_leading (reverse s))

unfoldable pub trim_text : CString → CString
unfolding cut_line strip_leading strip_trailing
trim_text s = strip_trailing (strip_leading (cut_line s))

-- `snprintf(dst, cap, "%s", s)`.
abbrev pub copy_str : ℕ → CString → CString
copy_str cap s = take (cap - 1) s

pub length-copy_str : (cap : ℕ) (s : CString) → 0 < cap → length (copy_str cap s) < cap
length-copy_str cap s h = omega (arith, length-take (cap - 1) s)
