-- ===== src/VersionTable/Rows.antt =====
-- A row that is written is read back.
use mathlib.Core.List.{reverse-cons, reverse-reverse}
use distributed_software_upd.Prelude.{
  ℕ, ◌+◌, ◌≤◌, ◌<◌, ◌≡◌, refl, sym, ap, ◌∙◌, true, false, ◌||◌, not, some, [], ◌∷◌, ◌++◌,
  append_assoc, reverse, CString, ◌==◌, leb, if◌then◌else◌, length, length-append, take_self,
  is_space, is_empty, has_byte, split_at, cut_line, strip_leading, strip_trailing, trim_text,
  copy_str, cut_short, is_line, arith, Bool-cases, inl, inr, >>=-eq-some,
}
use distributed_software_upd.Version.{ver_is_valid}
use distributed_software_upd.VersionTable.{
  split_row, check_row, version_row_ignorable, parse_version_row, row_of, is_comment,
}

-- A text without blanks. (The ends of a line are blanks too.)
abbrev pub IsWord : CString → Type 0
IsWord [] = Unit {0}
IsWord (c ∷ s) = (is_space c ≡ false) × IsWord s

IsWord-append : (s t : CString) → IsWord s → IsWord t → IsWord (s ++ t)
IsWord-append [] t p q = q
IsWord-append (c ∷ s) t p q = (p.0, IsWord-append s t p.1 q)

IsWord-reverse : (s : CString) → IsWord s → IsWord (reverse s)
IsWord-reverse [] p = tt
IsWord-reverse (c ∷ s) p =
    rw (reverse-cons c s) (IsWord-append (reverse s) (c ∷ []) (IsWord-reverse s p.1) (p.0, tt))

strip_leading-IsWord : (s : CString) → IsWord s → strip_leading s ≡ s
unfolding strip_leading
strip_leading-IsWord [] p = refl
strip_leading-IsWord (c ∷ s) p = rw (p.0, strip_leading) refl

strip_trailing-IsWord : (s : CString) → IsWord s → strip_trailing s ≡ s
unfolding strip_trailing
strip_trailing-IsWord s p =
    rw (strip_leading-IsWord (reverse s) (IsWord-reverse s p)) (reverse-reverse s)

-- The end of the line, and what follows, is cut off.
cut_line-IsWord : (s : CString) → IsWord s → cut_line s ≡ s
unfolding cut_line
cut_line-IsWord [] p = refl
cut_line-IsWord (c ∷ s) p =
    let t : ((c == 13) || (c == 10)) ≡ false = ground (arith, p.0) in
    rw (t, cut_line, cut_line-IsWord s p.1) refl

cut_line-line : (s : CString) → IsWord s → cut_line (s ++ 10 ∷ []) ≡ s
unfolding cut_line
cut_line-line [] p = refl
cut_line-line (c ∷ s) p =
    let t : ((c == 13) || (c == 10)) ≡ false = ground (arith, p.0) in
    rw (t, cut_line, cut_line-line s p.1) refl

pub trim_text-IsWord : (s : CString) → IsWord s → trim_text s ≡ s
unfolding trim_text
trim_text-IsWord s p =
    rw (cut_line-IsWord s p, strip_leading-IsWord s p) (strip_trailing-IsWord s p)

trim_text-line : (s : CString) → IsWord s → trim_text (s ++ 10 ∷ []) ≡ s
unfolding trim_text
trim_text-line s p = rw (cut_line-line s p, strip_leading-IsWord s p) (strip_trailing-IsWord s p)

split_at-append :
    (c : ℕ) (s t : CString) → has_byte c s ≡ false → split_at c (s ++ c ∷ t) ≡ some (s, t)
unfolding split_at has_byte
split_at-append c [] t h = ground arith
split_at-append c (x ∷ s) t h =
    let u : (x == c) ≡ false = ground arith in
    rw (u, split_at, split_at-append c s t (ground arith)) refl

-- An id that can be written into the table: no blanks, no `=`, no `#` in front, and it fits.
pub record IsId (id : CString) : Type 0 where
  pub word : IsWord id
  pub plain : has_byte b'=' id ≡ false
  pub named : is_comment id ≡ false
  pub fits : length id < 64

-- A version that can be written: valid, without blanks, and it fits.
pub record IsVersion (version : CString) : Type 0 where
  pub word : IsWord version
  pub valid : ver_is_valid version ≡ true
  pub fits : length version < 32

abbrev pair : CString → CString → CString
pair id version = id ++ b'=' ∷ version

is_comment-append : (s t : CString) → is_comment s ≡ false → is_comment (s ++ t) ≡ false
is_comment-append [] t h = cc
is_comment-append (c ∷ s) t h = h

pub is_empty-is_comment : (s : CString) → is_comment s ≡ false → is_empty s ≡ false
is_empty-is_comment [] h = cc
is_empty-is_comment (c ∷ s) h = refl

is_line_word : (s : CString) → IsWord s → is_line (s ++ 10 ∷ []) ≡ true
unfolding is_line
is_line_word [] p = refl
is_line_word (c ∷ []) p = ground (arith, p.0)
is_line_word (c ∷ (d ∷ s)) p =
    let t : (c == 10) ≡ false = ground (arith, p.0) in rw t (is_line_word (d ∷ s) p.1)

has_byte_end : (s : CString) → has_byte 10 (s ++ 10 ∷ []) ≡ true
unfolding has_byte
has_byte_end [] = refl
has_byte_end (c ∷ s) = ground (arith, has_byte_end s)

module _ (id version : CString) (i : IsId id) (v : IsVersion version) where
  row_of_line : row_of id version ≡ pair id version ++ 10 ∷ []
  row_of_line =
      let n = length-append id (b'=' ∷ (version ++ 10 ∷ [])) in
      let m = length-append version (10 ∷ []) in
      take_self 255 (id ++ b'=' ∷ (version ++ 10 ∷ [])) (omega (arith, i.fits, v.fits, n, m))
      ∙ sym (append_assoc id (b'=' ∷ version) (10 ∷ []))

  pair-IsWord : IsWord (pair id version)
  pair-IsWord = IsWord-append id (b'=' ∷ version) i.word (refl, v.word)

  pub row_of-is_line : is_line (row_of id version) ≡ true
  row_of-is_line = rw row_of_line (is_line_word (pair id version) pair-IsWord)

  pub length-row_of : length (row_of id version) ≤ 255
  length-row_of = omega (
    arith,
    ap length row_of_line,
    length-append (pair id version) (10 ∷ []),
    length-append id (b'=' ∷ version),
    i.fits,
    v.fits,
  )

  pub cut_short-row_of : cut_short 255 (row_of id version) ≡ false
  cut_short-row_of = rw (row_of_line, has_byte_end (pair id version)) refl

  trimmed : trim_text (copy_str 256 (row_of id version)) ≡ pair id version
  trimmed =
      ap trim_text (take_self 255 (row_of id version) length-row_of ∙ row_of_line)
      ∙ trim_text-line (pair id version) pair-IsWord

  pub version_row_ignorable-row_of : version_row_ignorable (row_of id version) ≡ false
  unfolding version_row_ignorable
  version_row_ignorable-row_of = rw trimmed (is_comment-append id (b'=' ∷ version) i.named)

  split_row-pair : split_row (pair id version) ≡ some (id, version)
  unfolding split_row
  split_row-pair =
      rw
        (
          split_at-append b'=' id version i.plain,
          split_row,
          trim_text-IsWord id i.word,
          trim_text-IsWord version v.word,
        )
        refl

  check_row_lem : check_row id version ≡ some (id, version)
  unfolding check_row
  check_row_lem =
      let a : (leb 64 (length id) || leb 32 (length version)) ≡ false =
        ground (arith, i.fits, v.fits) in
      let b : (is_empty id || not (ver_is_valid version)) ≡ false =
        rw (is_empty-is_comment id i.named, v.valid) refl in
      rw (trim_text-IsWord id i.word, trim_text-IsWord version v.word, a, if◌then◌else◌, b) refl

  -- A row that is written is read back.
  pub parse_version_row-row_of : parse_version_row (row_of id version) ≡ some (id, version)
  unfolding parse_version_row
  parse_version_row-row_of =
      rw (trimmed, is_comment-append id (b'=' ∷ version) i.named, if◌then◌else◌, split_row-pair)
        check_row_lem

length-snoc : (s : CString) (c : ℕ) → length (s ++ c ∷ []) ≡ length s + 1
length-snoc s c = omega (arith, length-append s (c ∷ []))

length-reverse : (s : CString) → length (reverse s) ≡ length s
length-reverse [] = refl
length-reverse (c ∷ s) =
    ap length (reverse-cons c s) ∙ omega (arith, length-snoc (reverse s) c, length-reverse s)

length-cut_line : (s : CString) → length (cut_line s) ≤ length s
unfolding cut_line
length-cut_line [] = omega arith
length-cut_line (c ∷ s) = ground (arith, length-cut_line s)

length-strip_leading : (s : CString) → length (strip_leading s) ≤ length s
unfolding strip_leading
length-strip_leading [] = omega arith
length-strip_leading (c ∷ s) = ground (arith, length-strip_leading s)

length-strip_trailing : (s : CString) → length (strip_trailing s) ≤ length s
unfolding strip_trailing
length-strip_trailing s = omega (
  arith,
  length-reverse (strip_leading (reverse s)),
  length-strip_leading (reverse s),
  length-reverse s,
)

length-trim_text : (s : CString) → length (trim_text s) ≤ length s
unfolding trim_text
length-trim_text s = omega (
  arith,
  length-strip_trailing (strip_leading (cut_line s)),
  length-strip_leading (cut_line s),
  length-cut_line s,
)

check_row-fits :
    (id version : CString) (r : CString × CString) → check_row id version ≡ some r → length r.0 < 64
unfolding check_row
check_row-fits id version r h = elim (Bool-cases (leb 64 (length id) || leb 32 (length version))) [
  | inl a ↦ absurd (ground arith)
  | inr a ↦ elim (Bool-cases (is_empty (trim_text id) || not (ver_is_valid (trim_text version)))) [
    | inl b ↦ absurd (ground arith)
    | inr b ↦
        let e : (trim_text id, trim_text version) ≡ r = ground arith in
        let p = ap (λ x. length x.0) e in
        let q : length id < 64 = ground (arith, a) in omega (arith, length-trim_text id, p, q)
  ]
]

-- An id that is read fits its array.
pub parse_version_row-fits :
    (l id old : CString) → parse_version_row l ≡ some (id, old) → length id < 64
unfolding parse_version_row
parse_version_row-fits l id old h = elim (Bool-cases (is_comment (trim_text (copy_str 256 l)))) [
  | inl c ↦ absurd (ground arith)
  | inr c ↦
      let h' = rw (c, if◌then◌else◌) at h in
      let (r, p, q) = >>=-eq-some (split_row (trim_text (copy_str 256 l))) _ h' in
      check_row-fits r.0 r.1 (id, old) q
]
