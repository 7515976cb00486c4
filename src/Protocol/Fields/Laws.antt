-- ===== src/Protocol/Fields/Laws.antt =====
-- `kv_get` and `kv_get_u64` against the fields that a payload was written from.
use distributed_software_upd.Prelude.{
  ℕ, ◌<◌, ◌≡◌, refl, sym, ap, ◌∙◌, true, false, Option, none, some, List, [], ◌∷◌, ◌++◌, CString,
  ltb, if◌then◌else◌, length, str_eq, split_at, has_byte, strtoull, strtoull-decimal, decimal,
  length-decimal, u64_mod, arith, append-nil,
}
use distributed_software_upd.Protocol.Fields.{parts, find_field, kv_get, kv_get_u64, number_or}

abbrev pub field : CString → CString → CString
field k v = k ++ b'=' ∷ v

-- The payload `k1=v1;k2=v2;...` of a list of fields.
abbrev pub print_fields : List (CString × CString) → CString
print_fields [] = []
print_fields ((k, v) ∷ []) = field k v
print_fields ((k, v) ∷ (f ∷ fs)) = field k v ++ b';' ∷ print_fields (f ∷ fs)

-- The value of the first field with a key.
abbrev pub first_value : CString → List (CString × CString) → Option CString
first_value key [] = none
first_value key ((k, v) ∷ fs) = if str_eq k key then some v else first_value key fs

-- No key holds `=` or `;`, and no value holds `;`.
abbrev pub IsPlain : List (CString × CString) → Type 0
IsPlain [] = Unit {0}
IsPlain ((k, v) ∷ fs) =
    ((has_byte b'=' k ≡ false) × (has_byte b';' k ≡ false) × (has_byte b';' v ≡ false)) × IsPlain fs

split_at-append :
    (c : ℕ) (a b : CString) → has_byte c a ≡ false → split_at c (a ++ c ∷ b) ≡ some (a, b)
unfolding split_at has_byte
split_at-append c [] b h = ground arith
split_at-append c (x ∷ a) b h = ground (arith, split_at-append c a b)

has_byte-append :
    (c : ℕ) (a b : CString)
    → has_byte c a ≡ false
    → has_byte c b ≡ false
    → has_byte c (a ++ b) ≡ false
unfolding has_byte
has_byte-append c [] b h k = k
has_byte-append c (x ∷ a) b h k = ground (arith, has_byte-append c a b)

parts-plain : (s : CString) → has_byte b';' s ≡ false → parts s ≡ s ∷ []
unfolding parts has_byte
parts-plain [] h = refl
parts-plain (x ∷ s) h = ground (arith, parts-plain s)

parts-append : (a b : CString) → has_byte b';' a ≡ false → parts (a ++ b';' ∷ b) ≡ a ∷ parts b
unfolding parts has_byte
parts-append [] b h = refl
parts-append (x ∷ a) b h = ground (arith, parts-append a b)

field-plain :
    (k v : CString)
    → has_byte b';' k ≡ false
    → has_byte b';' v ≡ false
    → has_byte b';' (field k v) ≡ false
unfolding has_byte
field-plain k v h j = has_byte-append b';' k (b'=' ∷ v) h (ground arith)

find_field-field :
    (key k v : CString) (ps : List CString)
    → has_byte b'=' k ≡ false
    → find_field key (field k v ∷ ps) ≡ (if str_eq k key then some v else find_field key ps)
unfolding find_field
find_field-field key k v ps h = rw (find_field, split_at-append b'=' k v h) refl

find_field-print_fields :
    (key : CString) (fs : List (CString × CString))
    → IsPlain fs
    → find_field key (parts (print_fields fs)) ≡ first_value key fs
find_field-print_fields key [] h = nothing
  where
    nothing : find_field key (parts []) ≡ none
    nothing = unfold find_field parts split_at in refl
find_field-print_fields key ((k, v) ∷ []) h =
    rw (parts-plain (field k v) (field-plain k v h.0.1 h.0.2), find_field-field key k v [] h.0.0)
      (unfold find_field in refl)
find_field-print_fields key ((k, v) ∷ (f ∷ fs)) h =
    rw
      (
        parts-append (field k v) (print_fields (f ∷ fs)) (field-plain k v h.0.1 h.0.2),
        find_field-field key k v (parts (print_fields (f ∷ fs))) h.0.0,
        find_field-print_fields key (f ∷ fs) h.1,
      )
      refl

-- From a payload of plain fields `kv_get` takes the value of the first field with the key; it
-- returns -1 if there is none, or if the value and its terminating zero do not fit the buffer.
pub kv_get-print_fields :
    (fs : List (CString × CString)) (key : CString) (out_len : ℕ)
    → IsPlain fs
    → 0 < out_len
    → kv_get (print_fields fs) key out_len ≡ elim (first_value key fs) [
      | none ↦ none
      | some v ↦ if ltb (length v) out_len then some v else none
    ]
unfolding kv_get
kv_get-print_fields fs key out_len h p = rw (find_field-print_fields key fs h) (ground arith)

-- A number printed into a plain field is the number that `kv_get_u64` reads.
pub kv_get_u64-decimal :
    (fs : List (CString × CString)) (key : CString) (n fallback : ℕ)
    → IsPlain fs
    → n < u64_mod
    → first_value key fs ≡ some (decimal n)
    → kv_get_u64 (print_fields fs) key fallback ≡ n
unfolding kv_get_u64
kv_get_u64-decimal fs key n fallback h p e =
    let t : ltb (length (decimal n)) 64 ≡ true = ground (arith, length-decimal n p) in
    rw (kv_get-print_fields fs key 64 h (omega arith), kv_get_u64, e, t, if◌then◌else◌)
      (ap (number_or fallback)
        (ap strtoull (sym (append-nil (decimal n))) ∙ strtoull-decimal n [] p tt))
