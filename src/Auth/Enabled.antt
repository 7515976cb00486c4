-- ===== src/Auth/Enabled.antt =====
-- Who is let in by a registry.
use mathlib.Core.List.{Memᴰ}
use mathlib.Core.List.Memᴰ
use distributed_software_upd.Prelude.{
  ◌≡◌, refl, subst, ◌∙◌, ◌⊎◌, ◌↔◌, inl, inr, Bool, true, false, Option, none, some, List, [], ◌∷◌,
  ◌++◌, CString, codes, if◌then◌else◌, str_eq, str_eq_iff, str_eq_self, str_case_eq, is_empty,
  trim_text, read_lines, cut_short, arith, Bool-cases, Option-cases,
}
use distributed_software_upd.Auth.{
  Status, ok, not_found, disabled, invalid_registry, valid_registry_state, read_line, member,
  auth_client_status, auth_client_registered, is_ok,
}
use distributed_software_upd.Auth.Registry.{
  Registry, entries_of, Fresh, IsRegistry, lookup, answer, member-append, Fresh-lookup,
}
use distributed_software_upd.Auth.Laws.{add_line-some, auth_client_status_lem}

-- What may stand behind the separator of a client that is let in: nothing, `enabled` or `allow` in
-- letters of either case, or `1`. A line without a separator lets its client in.
abbrev pub IsEnabling : Option CString → Type 0
IsEnabling none = Unit {0}
IsEnabling (some s) =
    (s ≡ [])
    ⊎ (str_case_eq s (codes "enabled") ≡ true)
    ⊎ (str_case_eq s (codes "allow") ≡ true)
    ⊎ (s ≡ codes "1")

empty-nil : (s : CString) → is_empty s ≡ true → s ≡ []
empty-nil [] e = refl
empty-nil (c ∷ s) e = cc

valid_registry_state-IsEnabling :
    (state : Option CString) → valid_registry_state state ≡ some true → IsEnabling state
unfolding valid_registry_state
valid_registry_state-IsEnabling none h = tt
valid_registry_state-IsEnabling (some s) h = elim (Bool-cases (is_empty s)) [
  | inl a ↦ inl (empty-nil s a)
  | inr a ↦ elim (Bool-cases (str_case_eq s (codes "enabled"))) [
    | inl b ↦ inr (inl b)
    | inr b ↦ elim (Bool-cases (str_case_eq s (codes "allow"))) [
      | inl c ↦ inr (inr (inl c))
      | inr c ↦ elim (Bool-cases (str_eq s (codes "1"))) [
        | inl d ↦ inr (inr (inr ((str_eq_iff s (codes "1")).0 d)))
        | inr d ↦ absurd (ground arith)
      ]
    ]
  ]
]

IsEnabling-valid_registry_state :
    (state : Option CString) → IsEnabling state → valid_registry_state state ≡ some true
unfolding valid_registry_state
IsEnabling-valid_registry_state none i = refl
IsEnabling-valid_registry_state (some s) (inl e) = rw e refl
IsEnabling-valid_registry_state (some s) (inr (inl e)) = ground arith
IsEnabling-valid_registry_state (some s) (inr (inr (inl e))) = ground arith
IsEnabling-valid_registry_state (some s) (inr (inr (inr e))) =
    let t = (str_eq_iff s (codes "1")).1 e in ground arith

-- A line that lets a client in.
pub record Enables (client : CString) (lines : List CString) : Type 0 where
  pub line : CString
  pub stands : Memᴰ line lines
  pub state : Option CString
  pub says : read_line (trim_text line) ≡ some (client, state)
  pub enabling : IsEnabling state

Enables-cons :
    {client : CString} (l : CString) {ls : List CString}
    → Enables client ls
    → Enables client (l ∷ ls)
Enables-cons l e = record {
  line = e.line;
  stands = Memᴰ.tail e.stands;
  state = e.state;
  says = e.says;
  enabling = e.enabling;
}

lookup-Enables :
    (client : CString) (ls : List CString) (es : Registry)
    → entries_of ls ≡ some es
    → lookup client es ≡ some true
    → Enables client ls
unfolding entries_of lookup
lookup-Enables client [] es h f = let e : [] ≡ es = cc in absurd (cc (rw (← e) at f))
lookup-Enables client (l ∷ ls) es h f = elim (Bool-cases (cut_short 255 l)) [
  | inl t ↦ absurd (ground arith)
  | inr t ↦ elim (Option-cases (read_line (trim_text l))) [
    | inl n ↦ Enables-cons l (lookup-Enables client ls es (rw (t, if◌then◌else◌, n) at h) f)
    | inr ((id, state), n) ↦
        let (_, (b, more, v, m, e)) =
          add_line-some id state (entries_of ls) es (rw (t, if◌then◌else◌, n) at h) in
        elim (Bool-cases (str_eq id client)) [
          | inl q ↦
              let enables : b ≡ true = cc (rw (e, q, if◌then◌else◌) at f) in
              record {
                line = l;
                stands = Memᴰ.head refl;
                state = state;
                says = n ∙ rw ((str_eq_iff id client).0 q) refl;
                enabling = valid_registry_state-IsEnabling state (v ∙ rw enables refl);
              }
          | inr q ↦ Enables-cons l (lookup-Enables client ls more m (rw (e, q, if◌then◌else◌) at f))
        ]
  ]
]

-- A registry with a line that lets the client in has the client enabled: no other line names it.
Enables-lookup :
    (client : CString) (seen ls : List CString) (es : Registry)
    → entries_of ls ≡ some es
    → Fresh seen es
    → (l : CString) (state : Option CString) → Memᴰ l ls
    → read_line (trim_text l) ≡ some (client, state)
    → IsEnabling state
    → (is_empty client ≡ false) × (lookup client es ≡ some true)
unfolding entries_of lookup
Enables-lookup client seen [] es h f l state m r i = absurd (Memᴰ.not-nil m)
Enables-lookup client seen (x ∷ ls) es h f l state m r i = elim (Bool-cases (cut_short 255 x)) [
  | inl t ↦ absurd (ground arith)
  | inr t ↦ elim (Option-cases (read_line (trim_text x))) [
    | inl n ↦ elim (Memᴰ.cases_cons m) [
      | inl same ↦ absurd (cc (rw same at r))
      | inr m' ↦ Enables-lookup client seen ls es (rw (t, if◌then◌else◌, n) at h) f l state m' r i
    ]
    | inr ((id, said), n) ↦
        let (fits, (b, more, v, p, e)) =
          add_line-some id said (entries_of ls) es (rw (t, if◌then◌else◌, n) at h) in
        let f' : Fresh seen ((id, b) ∷ more) = subst (λ r. Fresh seen r) e f in
        elim (Memᴰ.cases_cons m) [
          | inl same ↦
              let good = IsEnabling-valid_registry_state state i in
              let same_id : id ≡ client = cc in
              let enables : b ≡ true = cc in
              (
                ground (arith, same_id),
                rw (e, same_id, str_eq_self client, if◌then◌else◌, enables) refl,
              )
          | inr m' ↦
              let (named, found) =
                Enables-lookup client (seen ++ id ∷ []) ls more p f'.2 l state m' r i in
              elim (Bool-cases (str_eq id client)) [
                | inr q ↦ (named, rw (e, q, if◌then◌else◌) found)
                | inl q ↦
                    let known : member client (seen ++ id ∷ []) ≡ true =
                      rw (member-append client seen id, q) (ground arith) in
                    let none_left = Fresh-lookup client (seen ++ id ∷ []) more known f'.2 in
                    absurd (cc)
              ]
        ]
  ]
]

answer-ok : (o : Option Bool) → answer o ≡ ok → o ≡ some true
answer-ok none h = cc
answer-ok (some true) h = refl
answer-ok (some false) h = cc

is_ok-ok : (s : Status) → is_ok s ≡ true → s ≡ ok
is_ok-ok ok h = refl
is_ok-ok not_found h = cc
is_ok-ok disabled h = cc
is_ok-ok invalid_registry h = cc

registered_empty :
    (text client : CString)
    → is_empty client ≡ true
    → ¬ (auth_client_registered (some text) client ≡ true)
unfolding auth_client_registered auth_client_status
registered_empty text client e h = ground arith

-- A client passes `auth_client_registered` exactly where a line of the file lets it in and the whole
-- file is a registry: every line is well formed, no id stands twice, and there are 512 entries at most.
-- The line has the client's id alone, or with nothing, `enabled`, `allow` or `1` behind the separator.
pub auth_client_registered_iff :
    (text client : CString)
    → (auth_client_registered (some text) client ≡ true) ↔ (
        (es : Registry) × (entries_of (read_lines 255 text) ≡ some es)
        × IsRegistry es
        × Enables client (read_lines 255 text))
unfolding auth_client_registered
auth_client_registered_iff text client = (sound, complete)
  where
    sound :
        auth_client_registered (some text) client ≡ true
        → (es : Registry) × (entries_of (read_lines 255 text) ≡ some es)
          × IsRegistry es
          × Enables client (read_lines 255 text)
    sound h = elim (Bool-cases (is_empty client)) [
      | inl e ↦ absurd (registered_empty text client e h)
      | inr e ↦ elim (auth_client_status_lem text client e) [
        | inl (i, never) ↦ absurd (ground arith)
        | inr (es, p, f, i) ↦
            let found =
              answer-ok (lookup client es) (is_ok-ok (answer (lookup client es)) (ground arith)) in
            (es, p, f, lookup-Enables client (read_lines 255 text) es p found)
      ]
    ]

    complete :
        (es : Registry) × (entries_of (read_lines 255 text) ≡ some es)
          × IsRegistry es
          × Enables client (read_lines 255 text)
        → auth_client_registered (some text) client ≡ true
    complete (es, p, f, l) =
        let (e, found) =
          Enables-lookup client [] (read_lines 255 text) es p f l.line l.state l.stands l.says
            l.enabling in
        elim (auth_client_status_lem text client e) [
          | inl (i, never) ↦ absurd (never es p f)
          | inr (es', p', f', i) ↦ let same : es' ≡ es = cc in rw (i, same, found) refl
        ]
