-- ===== src/Version/RoundTrip.antt =====
-- `ver_parse` and the text of a version.
use distributed_software_upd.Prelude.{
  ℕ, ◌≤◌, ◌<◌, ◌≡◌, refl, some, [], ◌∷◌, ◌++◌, CString, ℤ, pos, negsuc, length, length-append,
  strtol, decimal, strtol-decimal, arith, decimal-StartsDigit, StartsDigit, StartsDigit-append,
  NoDigit, >>=-eq-some, append-nil,
}
use distributed_software_upd.Version.{
  SemVer, parse_part, ver_parse, max_part, accept_part, skip_dot, at_end,
}

-- The text of a version, as the manifests and the version table write it.
abbrev pub ver_print : SemVer → CString
ver_print v = decimal v.major ++ b'.' ∷ (decimal v.minor ++ b'.' ∷ decimal v.patch)

parse_part-digit : (s : CString) → StartsDigit s → parse_part s ≡ accept_part s (strtol s)
unfolding parse_part
parse_part-digit [] h = absurd h
parse_part-digit (c ∷ s) h = rw h.0 refl

StartsDigit-pos : (s : CString) → StartsDigit s → 0 < length s
StartsDigit-pos [] h = absurd h
StartsDigit-pos (c ∷ s) h = omega arith

parse_part-decimal :
    (n : ℕ) (rest : CString)
    → n ≤ max_part
    → NoDigit rest
    → parse_part (decimal n ++ rest) ≡ some (n, rest)
parse_part-decimal n rest h d =
    rw
      (
        parse_part-digit (decimal n ++ rest)
            (StartsDigit-append (decimal n) rest (decimal-StartsDigit n)),
        strtol-decimal n rest (omega arith) d,
      )
      (ground (
        arith,
        length-append (decimal n) rest,
        StartsDigit-pos (decimal n) (decimal-StartsDigit n),
      ))

-- The printed form of a version whose parts are in range parses back to that version.
pub ver_parse-ver_print :
    (v : SemVer)
    → v.major ≤ max_part
    → v.minor ≤ max_part
    → v.patch ≤ max_part
    → ver_parse (ver_print v) ≡ some v
unfolding ver_parse
ver_parse-ver_print v ma mi pa =
    rw
      (
        ← append-nil (decimal v.patch),
        parse_part-decimal v.major (b'.' ∷ (decimal v.minor ++ b'.' ∷ (decimal v.patch ++ []))) ma
            refl,
        parse_part-decimal v.minor (b'.' ∷ (decimal v.patch ++ [])) mi refl,
        parse_part-decimal v.patch [] pa tt,
      )
      refl

accept_part-le :
    (s : CString) (r : ℤ × CString) {n : ℕ} {rest : CString}
    → accept_part s r ≡ some (n, rest)
    → n ≤ max_part
accept_part-le s (negsuc m, end) h = cc
accept_part-le s (pos m, end) h = ground arith

parse_part-le :
    (s : CString) {n : ℕ} {rest : CString} → parse_part s ≡ some (n, rest) → n ≤ max_part
unfolding parse_part
parse_part-le [] h = cc
parse_part-le (c ∷ s) h = ground (arith, accept_part-le (c ∷ s) (strtol (c ∷ s)))

at_end-eq : (v : SemVer) (s : CString) {w : SemVer} → at_end v s ≡ some w → v ≡ w
at_end-eq v [] h = cc
at_end-eq v (_ ∷ _) h = cc

-- Every part of a version that `ver_parse` accepts is at most 999999, so it fits the source's
-- `int`.
pub ver_parse_bounds :
    (s : CString) {v : SemVer}
    → ver_parse s ≡ some v
    → (v.major ≤ max_part) × (v.minor ≤ max_part) × (v.patch ≤ max_part)
unfolding ver_parse
ver_parse_bounds s {v} h =
    let ((major, p), h1, k1) = >>=-eq-some (parse_part s) _ h in
    let (p1, h2, k2) = >>=-eq-some (skip_dot p) _ k1 in
    let ((minor, p2), h3, k3) = >>=-eq-some (parse_part p1) _ k2 in
    let (p3, h4, k4) = >>=-eq-some (skip_dot p2) _ k3 in
    let ((patch, p4), h5, k5) = >>=-eq-some (parse_part p3) _ k4 in
    let e = at_end-eq _ p4 k5 in
    rw (← e) (parse_part-le s h1, parse_part-le p1 h3, parse_part-le p3 h5)
