-- ===== src/Config/Numbers.antt =====
-- The numbers that are read from a configuration.
use distributed_software_upd.Prelude.{
  ℕ, ◌%◌, ◌^◌, ◌≤◌, ◌<◌, ◌≡◌, inl, inr, ◌||◌, none, some, [], ◌∷◌, CString, ℤ, pos, negsuc, ltb,
  is_empty, strtol, arith, Bool-cases, Option-cases,
}
use distributed_software_upd.Config.{Cfg, cfg_get, cfg_get_int_range, in_range, to_int}

-- A number from `a` to `b`.
abbrev pub Between : ℕ → ℕ → ℤ → Type 0
Between a b (pos n) = (a ≤ n) × (n ≤ b)
Between a b (negsuc n) = ⊥

in_range-Between :
    (a b : ℕ) (r : ℤ × CString) {v : ℤ}
    → b < 2 ^ 31
    → in_range (pos a) (pos b) r ≡ some v
    → Between a b v
in_range-Between a b (pos n, []) {v} h e = elim (Bool-cases (ltb n a || ltb b n)) [
  | inl t ↦ absurd (ground arith)
  | inr t ↦
      let p : n ≤ b = ground arith in
      let q : a ≤ n = ground arith in
      let m : n % 2 ^ 32 ≡ n = omega arith in
      let w : to_int (pos n) ≡ v = ground arith in
      let s : to_int (pos n) ≡ pos n = rw m (ground arith) in rw (← w, s) (q, p)
]
in_range-Between a b (negsuc n, []) h e = absurd (ground arith)
in_range-Between a b (v, _ ∷ _) h e = absurd (cc)

-- A number that `cfg_get_int_range` returns lies in the range that it was asked for, be it the
-- fallback or a number of the file. The range is one of non-negative `int`s.
pub cfg_get_int_range_bounds :
    (cfg : Cfg) (key : CString) (fallback a b : ℕ) {v : ℤ}
    → b < 2 ^ 31
    → cfg_get_int_range cfg key (pos fallback) (pos a) (pos b) ≡ some v
    → Between a b v
unfolding cfg_get_int_range
cfg_get_int_range_bounds cfg key fallback a b {v} h e =
    elim (Bool-cases (ltb b a || ltb fallback a || ltb b fallback)) [
      | inl t ↦ absurd (ground arith)
      | inr t ↦ elim (Option-cases (cfg_get cfg key none)) [
        | inl n ↦ let w : pos fallback ≡ v = ground arith in rw (← w) (ground arith, ground arith)
        | inr (s, n) ↦ elim (Bool-cases (is_empty s)) [
          | inl u ↦ absurd (ground arith)
          | inr u ↦ in_range-Between a b (strtol s) h (ground arith)
        ]
      ]
    ]
