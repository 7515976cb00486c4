-- ===== src/Prelude/Circular.antt =====
-- Circular arrays: `n` entries of an array, from an index on, going round at the capacity. The
-- worker queue, the logger's queue and the logger's ring of recent lines are read through them.
use Prim.Native.Nat.{ℕ, zero, suc, ◌+◌, ◌-◌, ◌%◌, ◌≤◌, ◌<◌}
use mathlib.Core.Path.{◌≡◌, refl, sym, ap, ap₂, subst, ◌∙◌}
use mathlib.Core.Logic.{◌≢◌}
use mathlib.Core.List.{List, [], ◌∷◌, ◌++◌}
use native.Mathlib.Nat.{mod-add-mod, mod-eq_of_lt, mod-eq-sub-mod, add-zero}
use native.Mathlib.Decide.{dec_lt}
use native.Mathlib.Omega.{arith}
use distributed_software_upd.Prelude.Lists.{length, get_or, set, length-append}

-- The index `k` places after `h`, with one turn at most.
round-ge : (cap h k : ℕ) → cap ≤ h + k → h + k < cap + cap → (h + k) % cap ≡ h + k - cap
round-ge cap h k p q =
    mod-eq-sub-mod {n = h + k} {m = cap} p ∙ mod-eq_of_lt {n = h + k - cap} {m = cap} (omega arith)

-- Two places less than a turn apart are different.
round-ne : (cap h k n : ℕ) → h < cap → k < n → n < cap → (h + n) % cap ≢ (h + k) % cap
round-ne cap h k n hh hk hn = elim (dec_lt (h + n) cap) [
  | yes p ↦ omega (arith, mod-eq_of_lt p, mod-eq_of_lt {n = h + k} {m = cap} (omega arith))
  | no p ↦ elim (dec_lt (h + k) cap) [
    | yes q ↦ omega (arith, round-ge cap h n (omega arith) (omega arith), mod-eq_of_lt q)
    | no q ↦ omega (
      arith,
      round-ge cap h n (omega arith) (omega arith),
      round-ge cap h k (omega arith) (omega arith),
    )
  ]
]

module _ {ℓ} {A : Type ℓ} (d : A) (arr : List A) (cap : ℕ) where
  -- The entries, the newest last.
  abbrev pub entries : ℕ → ℕ → List A
  entries h zero = []
  entries h (suc n) = entries h n ++ get_or arr ((h + n) % cap) d ∷ []

  pub length-entries : (h n : ℕ) → length (entries h n) ≡ n
  length-entries h zero = refl
  length-entries h (suc n) =
      omega
        (arith, length-append (entries h n) (get_or arr ((h + n) % cap) d ∷ []), length-entries h n)

  -- The oldest entry comes off at the front.
  pub entries-suc :
      (h n : ℕ) → h < cap → entries h (suc n) ≡ get_or arr h d ∷ entries ((h + 1) % cap) n
  entries-suc h zero p =
      let e : (h + 0) % cap ≡ h = rw add-zero (mod-eq_of_lt p) in
      ap (λ (k : ℕ). get_or arr k d ∷ []) e
  entries-suc h (suc n) p =
      let e : (h + suc n) % cap ≡ ((h + 1) % cap + n) % cap =
        rw mod-add-mod (ap (λ (k : ℕ). k % cap) (omega arith)) in
      ap₂ (λ (xs : List A) (k : ℕ). xs ++ get_or arr k d ∷ []) (entries-suc h n p) e

  pub entries-pos :
      (h n : ℕ) → h < cap → 0 < n → entries h n ≡ get_or arr h d ∷ entries ((h + 1) % cap) (n - 1)
  entries-pos h zero p q = absurd (omega arith)
  entries-pos h (suc n) p q =
      entries-suc h n p
      ∙ ap (λ (k : ℕ). get_or arr h d ∷ entries ((h + 1) % cap) k) {x = n} {y = suc n - 1}
          (omega arith)

module _ {ℓ} {A : Type ℓ} (d : A) (arr : List A) (cap : ℕ) where
  get_or-set_self : (xs : List A) (i : ℕ) (v : A) → i < length xs → get_or (set xs i v) i d ≡ v
  get_or-set_self [] i v h = absurd (omega arith)
  get_or-set_self (x ∷ xs) zero v h = refl
  get_or-set_self (x ∷ xs) (suc i) v h = get_or-set_self xs i v (omega arith)

  get_or-set_other :
      (xs : List A) (i j : ℕ) (v : A) → i ≢ j → get_or (set xs i v) j d ≡ get_or xs j d
  get_or-set_other [] i j v h = refl
  get_or-set_other (x ∷ xs) zero zero v h = absurd (h refl)
  get_or-set_other (x ∷ xs) zero (suc j) v h = refl
  get_or-set_other (x ∷ xs) (suc i) zero v h = refl
  get_or-set_other (x ∷ xs) (suc i) (suc j) v h = get_or-set_other xs i j v (λ e. h (ap suc e))

  -- A write behind the last entry leaves the entries alone.
  entries-set_behind :
      (h n m : ℕ) (v : A)
      → h < cap
      → m ≤ n
      → n < cap
      → entries d (set arr ((h + n) % cap) v) cap h m ≡ entries d arr cap h m
  entries-set_behind h n zero v p q r = refl
  entries-set_behind h n (suc m) v p q r =
      ap₂ (λ (xs : List A) (x : A). xs ++ x ∷ []) (entries-set_behind h n m v p (omega arith) r)
        (get_or-set_other arr _ _ v (round-ne cap h m n p q r))

  -- It adds the entry that was written.
  pub entries-set :
      (h n i : ℕ) (v : A)
      → h < cap
      → n < cap
      → cap ≤ length arr
      → i ≡ (h + n) % cap
      → entries d (set arr i v) cap h (suc n) ≡ entries d arr cap h n ++ v ∷ []
  entries-set h n i v p q r e =
      let b : (h + n) % cap < length arr = omega arith in
      subst (λ j. entries d (set arr j v) cap h (suc n) ≡ entries d arr cap h n ++ v ∷ []) (sym e)
        (ap₂ (λ (xs : List A) (x : A). xs ++ x ∷ []) (entries-set_behind h n n v p (omega arith) q)
          (get_or-set_self arr ((h + n) % cap) v b))

-- The index behind the last entry, after one more entry and after one less.
pub round-push : (cap h n : ℕ) → ((h + n) % cap + 1) % cap ≡ (h + (n + 1)) % cap
round-push cap h n = rw mod-add-mod (ap (λ (k : ℕ). k % cap) (omega arith))

pub round-pop : (cap h n : ℕ) → 0 < n → ((h + 1) % cap + (n - 1)) % cap ≡ (h + n) % cap
round-pop cap h n p = rw mod-add-mod (ap (λ (k : ℕ). k % cap) (omega arith))
