-- ===== src/ActiveIds/Table.antt =====
-- The array of active ids as a set of ids.
use distributed_software_upd.Prelude.{
  ℕ, suc, ◌+◌, ◌≡◌, refl, ap, ◌⊎◌, inl, inr, Bool, true, false, ◌||◌, Option, none, some, [], ◌∷◌,
  CString, if◌then◌else◌, str_eq, str_eq_iff, str_eq_self, is_empty, arith, Bool-cases,
  Option-cases,
}
use distributed_software_upd.ActiveIds.{
  Slots, held, free, first_free, search_slots, set_slot, clear_first,
}

-- The id has a session.
unfoldable pub holds : Slots → CString → Bool
holds [] id = false
holds (s ∷ slots) id = str_eq s id || holds slots id

-- No id has two slots.
abbrev pub Distinct : Slots → Type 0
Distinct [] = Unit {0}
Distinct (s ∷ slots) = ((is_empty s ≡ true) ⊎ (holds slots s ≡ false)) × Distinct slots

abbrev next_index : Option ℕ → Option ℕ
next_index none = none
next_index (some i) = some (suc i)

-- The index of the first free slot.
unfoldable pub free_index : Slots → Option ℕ
free_index [] = none
free_index (s ∷ slots) =
    let rest = free_index slots in if is_empty s then some 0 else next_index rest

abbrev pub shift : ℕ → Option ℕ → Option ℕ
shift i none = none
shift i (some j) = some (i + j)

abbrev pub either : Option ℕ → Option ℕ → Option ℕ
either (some j) o = some j
either none o = o

empty-other : (s id : CString) → is_empty s ≡ true → is_empty id ≡ false → str_eq s id ≡ false
unfolding str_eq
empty-other [] [] h e = cc
empty-other [] (c ∷ id) h e = refl
empty-other (c ∷ s) id h e = cc

either-first_free :
    (seen : Option ℕ) (i : ℕ) (o : Option ℕ)
    → either (first_free seen i) o ≡ either seen (some (i + 0))
either-first_free none i o = ap some (omega arith)
either-first_free (some j) i o = refl

shift-next_index : (i : ℕ) (o : Option ℕ) → shift (suc i) o ≡ shift i (next_index o)
shift-next_index i none = refl
shift-next_index i (some j) = ap some (omega arith)

pub search_slots_lem :
    (id : CString) (slots : Slots) (i : ℕ) (seen : Option ℕ)
    → is_empty id ≡ false
    → search_slots id slots i seen
      ≡ (if holds slots id then held else free (either seen (shift i (free_index slots))))
unfolding search_slots holds free_index
search_slots_lem id [] i none e = refl
search_slots_lem id [] i (some j) e = refl
search_slots_lem id (s ∷ slots) i seen e = elim (Bool-cases (is_empty s)) [
  | inl t ↦
      let o = empty-other s id t e in
      rw (t, o, search_slots, search_slots_lem id slots (suc i) (first_free seen i) e)
        (ap (λ r. if holds slots id then held else free r)
          (either-first_free seen i (shift (suc i) (free_index slots))))
  | inr t ↦ elim (Bool-cases (str_eq s id)) [
    | inl u ↦ rw (t, u, search_slots) refl
    | inr u ↦
        rw (t, u, search_slots, search_slots_lem id slots (suc i) seen e)
          (ap (λ r. if holds slots id then held else free (either seen r))
            (shift-next_index i (free_index slots)))
  ]
]

pub shift_zero : (o : Option ℕ) → either none (shift 0 o) ≡ o
shift_zero none = refl
shift_zero (some i) = ap some (omega arith)

empty-nil : (s : CString) → is_empty s ≡ true → s ≡ []
empty-nil [] h = refl
empty-nil (c ∷ s) h = cc

none_free : (i : ℕ) → ¬ (free_index [] ≡ some i)
unfolding free_index
none_free i h = cc

free_index-suc :
    (s : CString) (slots : Slots) (i : ℕ)
    → is_empty s ≡ false
    → free_index (s ∷ slots) ≡ some i
    → (j : ℕ) × (i ≡ suc j) × (free_index slots ≡ some j)
unfolding free_index
free_index-suc s slots i t = elim (Option-cases (free_index slots)) [
  | inl n ↦ rw (t, n, if◌then◌else◌) (λ h. absurd (cc))
  | inr (j, n) ↦ rw (t, n, if◌then◌else◌) (λ h. (j, ground arith, refl))
]

free_index-zero :
    (s : CString) (slots : Slots) (i : ℕ)
    → is_empty s ≡ true
    → free_index (s ∷ slots) ≡ some i
    → i ≡ 0
unfolding free_index
free_index-zero s slots i t = rw (t, if◌then◌else◌) (λ h. ground arith)

-- The slot that is taken adds its id, and no other.
pub holds-set_slot :
    (slots : Slots) (i : ℕ) (id j : CString)
    → free_index slots ≡ some i
    → is_empty j ≡ false
    → holds (set_slot slots i id) j ≡ (str_eq id j || holds slots j)
unfolding holds
holds-set_slot [] i id j h e = absurd (none_free i h)
holds-set_slot (s ∷ slots) i id j h e = elim (Bool-cases (is_empty s)) [
  | inl t ↦ let z = free_index-zero s slots i t h in let o = empty-other s j t e in rw (z, o) refl
  | inr t ↦
      let (k, z, h') = free_index-suc s slots i t h in
      rw (z, holds-set_slot slots k id j h' e) (ground arith)
]

pub clear_first-set_slot :
    (slots : Slots) (i : ℕ) (id : CString)
    → free_index slots ≡ some i
    → holds slots id ≡ false
    → clear_first id (set_slot slots i id) ≡ slots
unfolding holds clear_first
clear_first-set_slot [] i id h f = absurd (none_free i h)
clear_first-set_slot (s ∷ slots) i id h f = elim (Bool-cases (is_empty s)) [
  | inl t ↦
      let z = free_index-zero s slots i t h in
      let o = empty-nil s t in rw (z, clear_first, str_eq_self id, o) refl
  | inr t ↦
      let (k, z, h') = free_index-suc s slots i t h in
      let u : str_eq s id ≡ false = ground arith in
      let v : holds slots id ≡ false = ground arith in
      rw (z, clear_first, u) (ap (λ r. s ∷ r) (clear_first-set_slot slots k id h' v))
]

pub set_slot-Distinct :
    (slots : Slots) (i : ℕ) (id : CString)
    → free_index slots ≡ some i
    → holds slots id ≡ false
    → Distinct slots
    → Distinct (set_slot slots i id)
unfolding holds
set_slot-Distinct [] i id h f d = absurd (none_free i h)
set_slot-Distinct (s ∷ slots) i id h f d = elim (Bool-cases (is_empty s)) [
  | inl t ↦ let z = free_index-zero s slots i t h in rw z (inr (ground arith), d.1)
  | inr t ↦
      let (k, z, h') = free_index-suc s slots i t h in
      let u : str_eq s id ≡ false = ground arith in
      let v : holds slots id ≡ false = ground arith in
      let w : str_eq id s ≡ false = ground (arith, str_eq_iff s id, str_eq_iff id s) in
      let x : holds slots s ≡ false = elim d.0 [ inl y ↦ absurd (cc) | inr y ↦ y ] in
      rw z (
        inr (rw (holds-set_slot slots k id s h' t, w, x) refl),
        set_slot-Distinct slots k id h' v d.1,
      )
]
