-- ===== src/VersionTable/Rewriting.antt =====
-- The rows that `write_version_file` makes of the old ones, as a relation.
use distributed_software_upd.Prelude.{
  ℕ, zero, suc, ◌≤◌, ◌≡◌, subst, inl, inr, Bool, true, false, ◌||◌, some, List, [], ◌∷◌, CString,
  if◌then◌else◌, length, str_eq, str_eq-eq, cut_short, arith, Bool-cases, >>=-eq-some,
}
use distributed_software_upd.VersionTable.{
  version_row_ignorable, take_row, row_of, new_row, rewrite_rows,
}

module _ (client version : CString) where
  -- Behind the ids `seen`, the second rows come of the first; the flag says whether the client's is
  -- among them.
  pub data Rewritten : List CString → List CString → List CString → Bool → Type 0 where
    done : (seen : List CString) → Rewritten seen [] [] false
    skip :
        {seen ls rows : List CString} {u : Bool} (l : CString)
        → cut_short 255 l ≡ false
        → version_row_ignorable l ≡ true
        → Rewritten seen ls rows u
        → Rewritten seen (l ∷ ls) (l ∷ rows) u
    keep :
        {seen ls rows : List CString} {u : Bool} (l id old : CString) (seen' : List CString)
        → cut_short 255 l ≡ false
        → version_row_ignorable l ≡ false
        → take_row seen l ≡ some (id, old, seen')
        → str_eq id client ≡ false
        → Rewritten seen' ls rows u
        → Rewritten seen (l ∷ ls) (l ∷ rows) u
    replace :
        {seen ls rows : List CString} {u : Bool} (l old : CString) (seen' : List CString)
        → cut_short 255 l ≡ false
        → version_row_ignorable l ≡ false
        → take_row seen l ≡ some (client, old, seen')
        → Rewritten seen' ls rows u
        → Rewritten seen (l ∷ ls) (row_of client version ∷ rows) true

  counted :
      {seen ls rows : List CString} {u : Bool} (l id old : CString) (seen' : List CString)
      → cut_short 255 l ≡ false
      → version_row_ignorable l ≡ false
      → take_row seen l ≡ some (id, old, seen')
      → Rewritten seen' ls rows u
      → Rewritten seen (l ∷ ls) (new_row client version id l ∷ rows) (str_eq id client || u)
  counted {seen} l id old seen' c g t d = elim (Bool-cases (str_eq id client)) [
    | inr k ↦ rw (k, if◌then◌else◌) (keep l id old seen' c g t k d)
    | inl k ↦
        let t' = subst (λ x. take_row seen l ≡ some (x, old, seen')) (str_eq-eq id client k) t in
        rw (k, if◌then◌else◌) (replace l old seen' c g t' d)
  ]

  rewrite_row :
      (seen : List CString) (room : ℕ) (l : CString) (ls : List CString) (r : List CString × Bool)
      → cut_short 255 l ≡ false
      → rewrite_rows client version seen (suc room) (l ∷ ls) ≡ some r
      → ((seen' : List CString) (q : List CString × Bool)
          → rewrite_rows client version seen' room ls ≡ some q
          → Rewritten seen' ls q.0 q.1)
      → Rewritten seen (l ∷ ls) r.0 r.1
  unfolding rewrite_rows
  rewrite_row seen room l ls r c h ih = elim (Bool-cases (version_row_ignorable l)) [
    | inl g ↦
        let h' = rw (c, if◌then◌else◌, g) at h in
        let (q, p, e) = >>=-eq-some (rewrite_rows client version seen room ls) _ h' in
        let e' : (l ∷ q.0, q.1) ≡ r = cc in
        subst (λ x. Rewritten seen (l ∷ ls) x.0 x.1) e' (skip l c g (ih seen q p))
    | inr g ↦
        let h' = rw (c, if◌then◌else◌, g) at h in
        let ((id, old, seen'), t, h'') = >>=-eq-some (take_row seen l) _ h' in
        let (q, p, e) = >>=-eq-some (rewrite_rows client version seen' room ls) _ h'' in
        let e' : (new_row client version id l ∷ q.0, str_eq id client || q.1) ≡ r = cc in
        subst (λ x. Rewritten seen (l ∷ ls) x.0 x.1) e'
          (counted l id old seen' c g t (ih seen' q p))
  ]

  pub rewrite_rows-Rewritten :
      (room : ℕ) (ls : List CString) (seen : List CString) (r : List CString × Bool)
      → length ls ≤ room
      → rewrite_rows client version seen room ls ≡ some r
      → Rewritten seen ls r.0 r.1
  unfolding rewrite_rows
  rewrite_rows-Rewritten zero [] seen r h e =
      let e' : ([], false) ≡ r = cc in subst (λ x. Rewritten seen [] x.0 x.1) e' (done seen)
  rewrite_rows-Rewritten (suc room) [] seen r h e =
      let e' : ([], false) ≡ r = cc in subst (λ x. Rewritten seen [] x.0 x.1) e' (done seen)
  rewrite_rows-Rewritten zero (l ∷ ls) seen r h e = absurd (omega arith)
  rewrite_rows-Rewritten (suc room) (l ∷ ls) seen r h e = elim (Bool-cases (cut_short 255 l)) [
    | inl c ↦ absurd (ground arith)
    | inr c ↦
        rewrite_row seen room l ls r c e
          (λ seen' q p. rewrite_rows-Rewritten room ls seen' q (omega arith) p)
  ]
