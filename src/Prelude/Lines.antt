-- ===== src/Prelude/Lines.antt =====
-- Reading a text file line by line: `fgets`.
use Prim.Native.Nat.{ℕ, zero, suc, ◌≤◌, ◌<◌}
use mathlib.Core.Path.{◌≡◌, refl, sym, ap, ◌∙◌}
use mathlib.Core.Bool.{Bool, true, false, ◌&&◌, not}
use mathlib.Core.List.{List, [], ◌∷◌, ◌++◌}
use native.Mathlib.Omega.{arith}
use distributed_software_upd.Prelude.Tests.{◌==◌, Bool-cases}
use mathlib.Core.Logic.{inl, inr}
use distributed_software_upd.Prelude.Lists.{length, length-append}
use distributed_software_upd.Prelude.Text.{CString, has_byte}

-- At most `n` bytes, up to a line's end, which is kept; and what follows. (The source gives `fgets`
-- a buffer of `n + 1` bytes.)
unfoldable pub fgets : ℕ → CString → CString × CString
fgets zero s = ([], s)
fgets (suc n) [] = ([], [])
fgets (suc n) (c ∷ s) = elim (c == 10) [
  | true ↦ (c ∷ [], s)
  | false ↦ let (line, rest) = fgets n s in (c ∷ line, rest)
]

-- The lines that the calls of `fgets` return until it returns NULL, with fuel.
unfoldable pub lines_fuel : ℕ → ℕ → CString → List CString
unfolding fgets
lines_fuel zero n s = []
lines_fuel (suc f) n [] = []
lines_fuel (suc f) n (c ∷ s) = let (line, rest) = fgets n (c ∷ s) in line ∷ lines_fuel f n rest

-- Every call takes a byte at least, so the length of the text is fuel enough.
unfoldable pub read_lines : ℕ → CString → List CString
unfolding lines_fuel
read_lines n s = lines_fuel (length s) n s

-- No line's end in the line, and not the end of the file: the buffer was full.
abbrev pub cut_short : ℕ → CString → Bool
cut_short n line = not (has_byte 10 line) && (length line == n)

fgets-append : (n : ℕ) (s : CString) → (fgets n s).0 ++ (fgets n s).1 ≡ s
unfolding fgets
fgets-append zero s = refl
fgets-append (suc n) [] = refl
fgets-append (suc n) (c ∷ s) = ground (arith, fgets-append n s)

fgets-pos : (n c : ℕ) (s : CString) → 0 < length (fgets (suc n) (c ∷ s)).0
unfolding fgets
fgets-pos n c s = ground arith

abbrev pub join_lines : List CString → CString
join_lines [] = []
join_lines (l ∷ ls) = l ++ join_lines ls

join_lines-lines_fuel :
    (f n : ℕ) (s : CString) → length s ≤ f → join_lines (lines_fuel f (suc n) s) ≡ s
unfolding lines_fuel
join_lines-lines_fuel zero n [] h = refl
join_lines-lines_fuel zero n (c ∷ s) h = absurd (omega arith)
join_lines-lines_fuel (suc f) n [] h = refl
join_lines-lines_fuel (suc f) n (c ∷ s) h =
    let (line, rest) = fgets (suc n) (c ∷ s) in
    let whole = fgets-append (suc n) (c ∷ s) in
    let shorter : length rest ≤ f =
      omega (arith, ap length whole, length-append line rest, fgets-pos n c s) in
    ap (λ t. line ++ t) (join_lines-lines_fuel f n rest shorter) ∙ whole

-- The lines read are the whole text.
pub join_lines-read_lines : (n : ℕ) (s : CString) → join_lines (read_lines (suc n) s) ≡ s
unfolding read_lines
join_lines-read_lines n s = join_lines-lines_fuel (length s) n s (omega arith)

-- A line with its end, and no other end in it.
unfoldable pub is_line : CString → Bool
is_line [] = false
is_line (c ∷ []) = c == 10
is_line (c ∷ (d ∷ s)) = not (c == 10) && is_line (d ∷ s)

-- A text whose last line is ended, if it has any.
unfoldable pub ends_line : CString → Bool
ends_line [] = true
ends_line (c ∷ []) = c == 10
ends_line (c ∷ (d ∷ s)) = ends_line (d ∷ s)

abbrev pub AreLines : ℕ → List CString → Type 0
AreLines n [] = Unit {0}
AreLines n (l ∷ ls) = ((is_line l ≡ true) × (length l ≤ n)) × AreLines n ls

pub fgets-is_line :
    (n : ℕ) (l rest : CString) → is_line l ≡ true → length l ≤ n → fgets n (l ++ rest) ≡ (l, rest)
unfolding fgets is_line
fgets-is_line n [] rest h k = cc
fgets-is_line zero (c ∷ l) rest h k = absurd (omega arith)
fgets-is_line (suc n) (c ∷ []) rest h k = let t : (c == 10) ≡ true = h in rw (t, fgets) refl
fgets-is_line (suc n) (c ∷ (d ∷ l)) rest h k =
    let t : (c == 10) ≡ false = ground arith in
    rw (t, fgets, fgets-is_line n (d ∷ l) rest (ground arith) (omega arith)) refl

join_lines-pos :
    (l : CString) (ls : List CString) → is_line l ≡ true → 0 < length (join_lines (l ∷ ls))
unfolding is_line
join_lines-pos [] ls h = cc
join_lines-pos (c ∷ l) ls h = omega arith

lines_fuel-join_lines :
    (f n : ℕ) (ls : List CString)
    → AreLines n ls
    → length (join_lines ls) ≤ f
    → lines_fuel f n (join_lines ls) ≡ ls
unfolding lines_fuel is_line
lines_fuel-join_lines zero n [] a h = refl
lines_fuel-join_lines (suc f) n [] a h = refl
lines_fuel-join_lines f n ([] ∷ ls) a h = cc
lines_fuel-join_lines zero n ((c ∷ l) ∷ ls) a h = absurd (omega arith)
lines_fuel-join_lines (suc f) n ((c ∷ l) ∷ ls) a h =
    let e = fgets-is_line n (c ∷ l) (join_lines ls) a.0.0 a.0.1 in
    let shorter : length (join_lines ls) ≤ f = omega (arith, length-append l (join_lines ls)) in
    rw e (ap (λ ys. (c ∷ l) ∷ ys) (lines_fuel-join_lines f n ls a.1 shorter))

-- Lines that are put together are read back as they were.
pub read_lines-join_lines :
    (n : ℕ) (ls : List CString) → AreLines n ls → read_lines n (join_lines ls) ≡ ls
unfolding read_lines
read_lines-join_lines n ls a = lines_fuel-join_lines (length (join_lines ls)) n ls a (omega arith)

is_line-cons : (c : ℕ) (l : CString) → (c == 10) ≡ false → is_line l ≡ true → is_line (c ∷ l) ≡ true
unfolding is_line
is_line-cons c [] h k = cc
is_line-cons c (d ∷ l) h k = ground arith

cut_short-cons :
    (n c : ℕ) (l : CString) → (c == 10) ≡ false → cut_short (suc n) (c ∷ l) ≡ cut_short n l
unfolding has_byte
cut_short-cons n c l h = ground arith

fgets-ends_line :
    (n c : ℕ) (s : CString)
    → ends_line (c ∷ s) ≡ true
    → cut_short n (fgets n (c ∷ s)).0 ≡ false
    → (is_line (fgets n (c ∷ s)).0 ≡ true)
      × (length (fgets n (c ∷ s)).0 ≤ n)
      × (ends_line (fgets n (c ∷ s)).1 ≡ true)
unfolding fgets ends_line is_line has_byte
fgets-ends_line zero c s h k = absurd (ground arith)
fgets-ends_line (suc n) c [] h k = rw (h, fgets) (h, omega arith, refl)
fgets-ends_line (suc n) c (d ∷ s) h k = elim (Bool-cases (c == 10)) [
  | inl t ↦ rw (t, fgets) (t, omega arith, h)
  | inr t ↦
      let k' : cut_short (suc n) (c ∷ (fgets n (d ∷ s)).0) ≡ false = rw (t, fgets) at k in
      let ih = fgets-ends_line n d s h (sym (cut_short-cons n c (fgets n (d ∷ s)).0 t) ∙ k') in
      rw (t, fgets) (is_line-cons c (fgets n (d ∷ s)).0 t ih.0, omega (arith, ih.1), ih.2)
]

-- No line was cut short.
abbrev pub AreWhole : ℕ → List CString → Type 0
AreWhole n [] = Unit {0}
AreWhole n (l ∷ ls) = (cut_short n l ≡ false) × AreWhole n ls

lines_fuel-AreLines :
    (f n : ℕ) (s : CString)
    → ends_line s ≡ true
    → AreWhole n (lines_fuel f n s)
    → AreLines n (lines_fuel f n s)
unfolding lines_fuel
lines_fuel-AreLines zero n s h w = tt
lines_fuel-AreLines (suc f) n [] h w = tt
lines_fuel-AreLines (suc f) n (c ∷ s) h w =
    let (p, q, r) = fgets-ends_line n c s h w.0 in
    ((p, q), lines_fuel-AreLines f n (fgets n (c ∷ s)).1 r w.1)

-- The lines of a text that ends its last line are lines with their ends, if none was cut short.
pub read_lines-AreLines :
    (n : ℕ) (s : CString)
    → ends_line s ≡ true
    → AreWhole n (read_lines n s)
    → AreLines n (read_lines n s)
unfolding read_lines
read_lines-AreLines n s h w = lines_fuel-AreLines (length s) n s h w
