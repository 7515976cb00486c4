-- ===== src/Version.antt =====
-- Project_3/Project_3/src/common/version.c: versions MAJOR.MINOR.PATCH. A `none` is the return of -1; the pointer
-- arguments are never NULL.
pub mod Order
pub mod RoundTrip
mod Tests
use distributed_software_upd.Prelude.{
  ℕ, ◌≤◌, Bool, true, false, Option, none, some, [], ◌∷◌, CString, ℤ, pos, negsuc, ltb, ◌==◌,
  if◌then◌else◌, length, is_digit, strtol, ◌>>=◌,
}

-- `semver_t`
pub record SemVer : Type 0 where
  pub major : ℕ
  pub minor : ℕ
  pub patch : ℕ

abbrev pub max_part : ℕ
max_part = 999_999

-- What `parse_part` does with the result of `strtol` on the text `s`: the pointer `end` is at `s`
-- itself when as much text is left.
abbrev pub accept_part : CString → ℤ × CString → Option (ℕ × CString)
accept_part s (negsuc n, end) = none
accept_part s (pos n, end) =
    if length end == length s then none else if ltb max_part n then none else some (n, end)

-- The part, and the text behind it.
unfoldable pub parse_part : CString → Option (ℕ × CString)
parse_part [] = none
parse_part (c ∷ s) = if is_digit c then accept_part (c ∷ s) (strtol (c ∷ s)) else none

-- `*p++ != '.'`
abbrev pub skip_dot : CString → Option CString
skip_dot [] = none
skip_dot (c ∷ s) = if c == b'.' then some s else none

-- `*p != '\0'`
abbrev pub at_end : SemVer → CString → Option SemVer
at_end v [] = some v
at_end v (_ ∷ _) = none

unfoldable pub ver_parse : CString → Option SemVer
ver_parse text = do
  (major, p) ← parse_part text
  p ← skip_dot p
  (minor, p) ← parse_part p
  p ← skip_dot p
  (patch, p) ← parse_part p
  at_end (record { major = major; minor = minor; patch = patch }) p

abbrev three_way : ℕ → ℕ → ℤ
three_way a b = if ltb b a then pos 1 else negsuc 0

unfoldable pub ver_compare : SemVer → SemVer → ℤ
ver_compare a b =
    if a.major == b.major
    then (if a.minor == b.minor
        then (if a.patch == b.patch then pos 0 else three_way a.patch b.patch)
        else three_way a.minor b.minor)
    else three_way a.major b.major

unfoldable pub ver_compare_text : CString → CString → Option ℤ
ver_compare_text a b = do va ← ver_parse a; vb ← ver_parse b; some (ver_compare va vb)

abbrev is_some : Option SemVer → Bool
is_some none = false
is_some (some _) = true

unfoldable pub ver_is_valid : CString → Bool
ver_is_valid text = is_some (ver_parse text)
