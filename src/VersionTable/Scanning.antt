-- ===== src/VersionTable/Scanning.antt =====
-- What the reader of the table finds in rewritten rows.
use distributed_software_upd.Prelude.{
  ◌+◌, ◌≤◌, ◌<◌, ◌≡◌, refl, sym, ap, ◌∙◌, inl, inr, Bool, true, false, ◌||◌, Option, none, some,
  List, [], ◌∷◌, ◌++◌, CString, leb, if◌then◌else◌, length, length-append, take_self, str_eq,
  str_eq_self, is_empty, copy_str, cut_short, AreLines, AreWhole, arith, Bool-cases, >>=-eq-some,
}
use distributed_software_upd.Auth.{member}
use distributed_software_upd.Auth.Registry.{member-append}
use distributed_software_upd.VersionTable.{
  version_row_ignorable, parse_version_row, remember_version_id, take_row, found_version, scan_rows,
  row_of,
}
use distributed_software_upd.VersionTable.Rows.{
  IsId, IsVersion, is_empty-is_comment, row_of-is_line, length-row_of, cut_short-row_of,
  version_row_ignorable-row_of, parse_version_row-row_of, parse_version_row-fits,
}
use distributed_software_upd.VersionTable.Rewriting.{Rewritten, done, skip, keep, replace}

take_row-parts :
    (seen : List CString) (l id old : CString) (seen' : List CString)
    → take_row seen l ≡ some (id, old, seen')
    → (parse_version_row l ≡ some (id, old)) × (remember_version_id seen id ≡ some seen')
unfolding take_row
take_row-parts seen l id old seen' t =
    let (r, p, h1) = >>=-eq-some (parse_version_row l) _ t in
    let (s, q, h2) = >>=-eq-some (remember_version_id seen r.0) _ h1 in
    let a : r.0 ≡ id = cc in let b : r.1 ≡ old = cc in let c : s ≡ seen' = cc in (cc, cc)

take_row_lem :
    (seen : List CString) (l id old : CString) (seen' : List CString)
    → parse_version_row l ≡ some (id, old)
    → remember_version_id seen id ≡ some seen'
    → take_row seen l ≡ some (id, old, seen')
unfolding take_row
take_row_lem seen l id old seen' p q = rw (p, q) refl

module _ (who : CString) (seen : List CString) (f : Option CString) (l : CString)
    (ls : List CString) where
  scan_skip :
      cut_short 255 l ≡ false
      → version_row_ignorable l ≡ true
      → scan_rows who seen f (l ∷ ls) ≡ scan_rows who seen f ls
  unfolding scan_rows
  scan_skip c g = rw (c, if◌then◌else◌, g) refl

  scan_take :
      (id old : CString) (seen' : List CString)
      → cut_short 255 l ≡ false
      → version_row_ignorable l ≡ false
      → take_row seen l ≡ some (id, old, seen')
      → scan_rows who seen f (l ∷ ls) ≡ scan_rows who seen' (found_version who id old f) ls
  unfolding scan_rows
  scan_take id old seen' c g t = rw (c, if◌then◌else◌, g, t) refl

-- The ids that are seen after a row.
remember-member :
    (seen : List CString) (id j : CString) (seen' : List CString)
    → length id < 64
    → remember_version_id seen id ≡ some seen'
    → (length seen' ≤ length seen + 1) × (member j seen' ≡ (member j seen || str_eq id j))
unfolding remember_version_id
remember-member seen id j seen' fits h =
    elim (Bool-cases (is_empty id || member id seen || leb 512 (length seen))) [
      | inl b ↦ absurd (ground arith)
      | inr b ↦
          let e : seen ++ copy_str 64 id ∷ [] ≡ seen' = ground arith in
          let w : copy_str 64 id ≡ id = take_self 63 id (omega arith) in
          rw (← e, w) (omega (arith, length-append seen (id ∷ [])), member-append j seen id)
    ]

module _ (client version : CString) (i : IsId client) (v : IsVersion version) where
  abbrev row : CString
  row = row_of client version

  replaced :
      (seen : List CString) (l old : CString) (seen' : List CString)
      → take_row seen l ≡ some (client, old, seen')
      → take_row seen row ≡ some (client, version, seen')
  replaced seen l old seen' t =
      take_row_lem seen row client version seen' (parse_version_row-row_of client version i v)
        (take_row-parts seen l client old seen' t).1

  scan_row :
      (who : CString) (seen : List CString) (f : Option CString) (ls : List CString)
      (seen' : List CString)
      → take_row seen row ≡ some (client, version, seen')
      → scan_rows who seen f (row ∷ ls)
        ≡ scan_rows who seen' (if str_eq client who then some version else f) ls
  unfolding found_version
  scan_row who seen f ls seen' t =
      scan_take who seen f row ls client version seen' (cut_short-row_of client version i v)
        (version_row_ignorable-row_of client version i v) t
      ∙ ap (λ c. scan_rows who seen' (if str_eq client who then some c else f) ls)
          (take_self 31 version (omega (arith, v.fits)))

  abbrev now : Bool → Option CString → Option CString
  now true f = some version
  now false f = f

  now_again : (u : Bool) → some (now u (some version)) ≡ some (some version)
  now_again true = refl
  now_again false = refl

  pub scan_client :
      {seen ls rows : List CString} {u : Bool} (f : Option CString)
      → Rewritten client version seen ls rows u
      → scan_rows client seen f rows ≡ some (now u f)
  unfolding scan_rows
  scan_client f (done seen) = refl
  scan_client f (skip {seen} {rows = rows} l c g d) =
      scan_skip client seen f l rows c g ∙ scan_client f d
  scan_client f (keep {seen} {rows = rows} {u} l id old seen' c g t k d) =
      let e : found_version client id old f ≡ f = rw (k, found_version) refl in
      scan_take client seen f l rows id old seen' c g t
      ∙ scan_client (found_version client id old f) d
      ∙ ap (λ x. some (now u x)) e
  scan_client f (replace {seen} {rows = rows} {u} l old seen' c g t d) =
      scan_row client seen f rows seen' (replaced seen l old seen' t)
      ∙ rw (str_eq_self client, if◌then◌else◌) (scan_client (some version) d ∙ now_again u)

  -- Another client finds in the new rows what it found in the old ones.
  pub scan_other :
      {seen ls rows : List CString} {u : Bool} (who : CString) (f : Option CString)
      → str_eq client who ≡ false
      → Rewritten client version seen ls rows u
      → scan_rows who seen f rows ≡ scan_rows who seen f ls
  unfolding scan_rows
  scan_other who f n (done seen) = refl
  scan_other who f n (skip {seen} {ls} {rows} l c g d) =
      scan_skip who seen f l rows c g ∙ scan_other who f n d ∙ sym (scan_skip who seen f l ls c g)
  scan_other who f n (keep {seen} {ls} {rows} l id old seen' c g t k d) =
      scan_take who seen f l rows id old seen' c g t
      ∙ scan_other who (found_version who id old f) n d
      ∙ sym (scan_take who seen f l ls id old seen' c g t)
  scan_other who f n (replace {seen} {ls} {rows} l old seen' c g t d) =
      let e : found_version who client old f ≡ f = rw (n, found_version) refl in
      scan_row who seen f rows seen' (replaced seen l old seen' t)
      ∙ rw (n, if◌then◌else◌) (scan_other who f n d)
      ∙ ap (λ x. scan_rows who seen' x ls) (sym e)
      ∙ sym (scan_take who seen f l ls client old seen' c g t)

  remembered :
      (seen : List CString)
      → member client seen ≡ false
      → length seen < 512
      → take_row seen row ≡ some (client, version, seen ++ copy_str 64 client ∷ [])
  unfolding remember_version_id
  remembered seen m room =
      let e : (is_empty client || member client seen || leb 512 (length seen)) ≡ false =
        rw (is_empty-is_comment client i.named, m) (ground arith) in
      take_row_lem seen row client version (seen ++ copy_str 64 client ∷ [])
        (parse_version_row-row_of client version i v) (rw (e, if◌then◌else◌) refl)

  abbrev pub with_row : CString → Option (Option CString) → Option (Option CString)
  with_row who none = none
  with_row who (some x) = some (if str_eq client who then some version else x)

  -- What a client finds where the row was not there and stands at the end now.
  pub scan_appended :
      {seen ls rows : List CString} {u : Bool} (who : CString) (f : Option CString)
      → u ≡ false
      → member client seen ≡ false
      → length seen + length ls < 512
      → Rewritten client version seen ls rows u
      → scan_rows who seen f (rows ++ row ∷ []) ≡ with_row who (scan_rows who seen f ls)
  unfolding scan_rows
  scan_appended who f n m room (done seen) =
      scan_row who seen f [] (seen ++ copy_str 64 client ∷ []) (remembered seen m (omega arith))
  scan_appended who f n m room (skip {seen} {ls} {rows} l c g d) =
      scan_skip who seen f l (rows ++ row ∷ []) c g
      ∙ scan_appended who f n m (omega arith) d
      ∙ ap (with_row who) (sym (scan_skip who seen f l ls c g))
  scan_appended who f n m room (keep {seen} {ls} {rows} l id old seen' c g t k d) =
      let (p, r) = take_row-parts seen l id old seen' t in
      let (more, other) =
        remember-member seen id client seen' (parse_version_row-fits l id old p) r in
      scan_take who seen f l (rows ++ row ∷ []) id old seen' c g t
      ∙ scan_appended who (found_version who id old f) n (rw (other, m, k) refl) (omega arith) d
      ∙ ap (with_row who) (sym (scan_take who seen f l ls id old seen' c g t))
  scan_appended who f n m room (replace l old seen' c g t d) = cc

  pub with_row_other :
      (who : CString)
      → str_eq client who ≡ false
      → (o : Option (Option CString)) → with_row who o ≡ o
  with_row_other who n none = refl
  with_row_other who n (some x) = rw (n, if◌then◌else◌) refl

  -- The new rows are lines, as the old ones were, and as many.
  pub Rewritten-AreLines :
      {seen ls rows : List CString} {u : Bool}
      → Rewritten client version seen ls rows u
      → AreLines 255 ls
      → AreLines 255 rows
  Rewritten-AreLines (done seen) a = tt
  Rewritten-AreLines (skip l c g d) a = (a.0, Rewritten-AreLines d a.1)
  Rewritten-AreLines (keep l id old seen' c g t k d) a = (a.0, Rewritten-AreLines d a.1)
  Rewritten-AreLines (replace l old seen' c g t d) a = (
    (row_of-is_line client version i v, length-row_of client version i v),
    Rewritten-AreLines d a.1,
  )

pub Rewritten-AreWhole :
    {client version : CString} {seen ls rows : List CString} {u : Bool}
    → Rewritten client version seen ls rows u
    → AreWhole 255 ls
Rewritten-AreWhole (done seen) = tt
Rewritten-AreWhole (skip l c g d) = (c, Rewritten-AreWhole d)
Rewritten-AreWhole (keep l id old seen' c g t k d) = (c, Rewritten-AreWhole d)
Rewritten-AreWhole (replace l old seen' c g t d) = (c, Rewritten-AreWhole d)

pub Rewritten-length :
    {client version : CString} {seen ls rows : List CString} {u : Bool}
    → Rewritten client version seen ls rows u
    → length rows ≡ length ls
Rewritten-length (done seen) = refl
Rewritten-length (skip l c g d) = omega (arith, Rewritten-length d)
Rewritten-length (keep l id old seen' c g t k d) = omega (arith, Rewritten-length d)
Rewritten-length (replace l old seen' c g t d) = omega (arith, Rewritten-length d)

pub Rewritten-same :
    {client version : CString} {seen ls rows : List CString} {u : Bool}
    → u ≡ false
    → Rewritten client version seen ls rows u
    → rows ≡ ls
Rewritten-same n (done seen) = refl
Rewritten-same n (skip l c g d) = ap (λ ys. l ∷ ys) (Rewritten-same n d)
Rewritten-same n (keep l id old seen' c g t k d) = ap (λ ys. l ∷ ys) (Rewritten-same n d)
Rewritten-same n (replace l old seen' c g t d) = cc
