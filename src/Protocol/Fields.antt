-- ===== src/Protocol/Fields.antt =====
-- The `key=value;key=value` payloads: `kv_get` and `kv_get_u64` of Project_3/Project_3/src/common/protocol.c.
pub mod Laws
use distributed_software_upd.Prelude.{
  ℕ, ◌%◌, ◌^◌, Bool, true, false, Option, none, some, List, [], ◌∷◌, CString, leb, ◌==◌,
  if◌then◌else◌, length, str_eq, split_at, strtoull,
}

abbrev cons_head : ℕ → List CString → List CString
cons_head c [] = (c ∷ []) ∷ []
cons_head c (p ∷ ps) = (c ∷ p) ∷ ps

-- The stretches of text between the semicolons, which the loop visits in turn. (It does not visit
-- an empty stretch at the end, which holds no field.)
unfoldable pub parts : CString → List CString
parts [] = [] ∷ []
parts (c ∷ s) = elim (c == b';') [ true ↦ [] ∷ parts s | false ↦ cons_head c (parts s) ]

-- The value of the first part whose text before its first `=` is the key.
unfoldable pub find_field : CString → List CString → Option CString
find_field key [] = none
find_field key (p ∷ ps) =
    let rest = find_field key ps in
    elim (split_at b'=' p) [ none ↦ rest | some (k, v) ↦ if str_eq k key then some v else rest ]

abbrev fitting : ℕ → CString → Option CString
fitting out_len v = if leb out_len (length v) then none else some v

-- `out_len` is the size of the caller's buffer; `none` is the return of -1.
unfoldable pub kv_get : CString → CString → ℕ → Option CString
unfolding parts find_field
kv_get payload key out_len =
    if out_len == 0
    then none
    else elim (find_field key (parts payload)) [ none ↦ none | some v ↦ fitting out_len v ]

abbrev number_or : ℕ → ℕ × CString → ℕ
number_or fallback (v, []) = v
number_or fallback (v, _ ∷ _) = fallback

unfoldable pub kv_get_u64 : CString → CString → ℕ → ℕ
kv_get_u64 payload key fallback = elim (kv_get payload key 64) [
  | none ↦ fallback
  | some tmp ↦ number_or fallback (strtoull tmp)
]
