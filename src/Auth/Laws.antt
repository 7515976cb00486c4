-- ===== src/Auth/Laws.antt =====
-- What `auth_client_status` answers by a registry.
use distributed_software_upd.Prelude.{
  take_self, ◌<◌, ◌≤◌, ◌≡◌, refl, subst, ◌⊎◌, inl, inr, Bool, true, false, ◌||◌, Option, none, some,
  List, [], ◌∷◌, ◌++◌, CString, leb, if◌then◌else◌, length, is_empty, trim_text, copy_str,
  read_lines, cut_short, arith, Bool-cases, Option-cases,
}
use distributed_software_upd.Auth.{
  Status, not_found, invalid_registry, max_id_len, max_seen, valid_registry_state, read_line,
  member, refuses_id, found, scan, auth_client_status,
}
use distributed_software_upd.Auth.Registry.{
  Registry, add_line, entries_of, Fresh, IsRegistry, lookup, answer, replay, replay-lookup,
}

-- What `scan` answers behind the ids of `seen`.
abbrev Verdict : CString → List CString → Status → List CString → Type 0
Verdict client seen s ls =
    ((scan client seen s ls ≡ invalid_registry)
      × ((es : Registry) → entries_of ls ≡ some es → ¬ Fresh seen es))
    ⊎ ((es : Registry) × (entries_of ls ≡ some es)
        × Fresh seen es
        × (scan client seen s ls ≡ replay client s es))

pub add_line-some :
    (id : CString) (state : Option CString) (rest : Option Registry) (es : Registry)
    → add_line (some (id, state)) rest ≡ some es
    → (is_empty id || leb max_id_len (length id) ≡ false)
      × ((b : Bool) × (more : Registry) × (valid_registry_state state ≡ some b)
          × (rest ≡ some more)
          × (es ≡ (id, b) ∷ more))
add_line-some id state rest es h = elim (Bool-cases (is_empty id || leb max_id_len (length id))) [
  | inl t ↦ absurd (ground arith)
  | inr t ↦ elim (Option-cases (valid_registry_state state)) [
    | inl n ↦ absurd (ground arith)
    | inr (b, n) ↦ elim (Option-cases rest) [
      | inl m ↦ absurd (ground arith)
      | inr (more, m) ↦ (t, (b, more, n, m, ground arith))
    ]
  ]
]

refused :
    (seen : List CString) (id : CString) (state : Option CString) (rest : Option Registry)
    (es : Registry)
    → refuses_id seen id ≡ true
    → add_line (some (id, state)) rest ≡ some es
    → ¬ Fresh seen es
unfolding refuses_id
refused seen id state rest es r h f =
    let (t, (b, more, n, m, e)) = add_line-some id state rest es h in
    let f' : Fresh seen ((id, b) ∷ more) = subst (λ r. Fresh seen r) e f in
    let (p, q, _) = f' in absurd (ground arith)

blocked :
    (seen : List CString) (id : CString) (state : Option CString) (rest : Option Registry)
    → ((es : Registry) → rest ≡ some es → ¬ Fresh (seen ++ id ∷ []) es)
    → (es : Registry) → add_line (some (id, state)) rest ≡ some es
    → ¬ Fresh seen es
blocked seen id state rest never es h f =
    let (t, (b, more, n, m, e)) = add_line-some id state rest es h in
    let f' : Fresh seen ((id, b) ∷ more) = subst (λ r. Fresh seen r) e f in never more m f'.2

unstated :
    (id : CString) (state : Option CString) (rest : Option Registry) (es : Registry)
    → valid_registry_state state ≡ none
    → ¬ (add_line (some (id, state)) rest ≡ some es)
unstated id state rest es v h = let (_, (b, _, n, _, _)) = add_line-some id state rest es h in cc

accepted :
    (seen : List CString) (id : CString)
    → refuses_id seen id ≡ false
    → (is_empty id || leb max_id_len (length id) ≡ false)
      × (member id seen ≡ false)
      × (length seen < max_seen)
      × (copy_str max_id_len id ≡ id)
unfolding refuses_id
accepted seen id r =
    let short : length id ≤ 63 = ground arith in
    (ground arith, ground arith, ground arith, take_self 63 id short)

scan-Verdict :
    (client : CString) (seen : List CString) (s : Status) (ls : List CString)
    → Verdict client seen s ls
unfolding scan entries_of replay
scan-Verdict client seen s [] = inr ([], refl, tt, refl)
scan-Verdict client seen s (l ∷ ls) = elim (Bool-cases (cut_short 255 l)) [
  | inl t ↦ inl (rw (t, if◌then◌else◌) refl, λ es e. absurd (ground arith))
  | inr t ↦ elim (Option-cases (read_line (trim_text l))) [
    | inl n ↦ rw (t, if◌then◌else◌, n) (scan-Verdict client seen s ls)
    | inr ((id, state), n) ↦ elim (Bool-cases (refuses_id seen id)) [
      | inl r ↦
          rw (t, if◌then◌else◌, n)
            (inl (rw (r, if◌then◌else◌) refl, λ es e. refused seen id state (entries_of ls) es r e))
      | inr r ↦
          let (fits, p, q, c) = accepted seen id r in
          elim (Option-cases (valid_registry_state state)) [
            | inl v ↦
                rw (t, if◌then◌else◌, n)
                  (inl (
                    rw (r, if◌then◌else◌, v) refl,
                    λ es e. absurd (unstated id state (entries_of ls) es v e),
                  ))
            | inr (b, v) ↦
                elim (scan-Verdict client (seen ++ id ∷ []) (found client s id b) ls)
                  as (λ _. Verdict client seen s (l ∷ ls)) [
                    | inl (i, never) ↦
                        rw (t, if◌then◌else◌, n)
                          (inl (
                            rw (r, if◌then◌else◌, v, c) i,
                            λ es e. blocked seen id state (entries_of ls) never es e,
                          ))
                    | inr (es, e, f, i) ↦
                        rw (t, if◌then◌else◌, n, r, fits, v, c, e)
                          (inr ((id, b) ∷ es, refl, (p, q, f), i))
                  ]
          ]
    ]
  ]
]

-- `auth_client_status` gives the answer of a registry whose lines are well formed, that names no id
-- twice and has 512 entries at most, and `invalid_registry` for a text that is no such registry. The
-- client's id is not empty.
pub auth_client_status_lem :
    (text client : CString)
    → is_empty client ≡ false
    → ((auth_client_status (some text) client ≡ invalid_registry)
        × ((es : Registry) → entries_of (read_lines 255 text) ≡ some es → ¬ IsRegistry es))
      ⊎ ((es : Registry) × (entries_of (read_lines 255 text) ≡ some es)
          × IsRegistry es
          × (auth_client_status (some text) client ≡ answer (lookup client es)))
unfolding auth_client_status
auth_client_status_lem text client e =
    elim (scan-Verdict client [] not_found (read_lines 255 text)) [
      | inl (i, never) ↦ inl (rw (e, if◌then◌else◌) i, never)
      | inr (es, p, f, i) ↦
          inr (es, p, f, rw (e, if◌then◌else◌, i) (replay-lookup client not_found [] es f))
    ]
