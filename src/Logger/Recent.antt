-- ===== src/Logger/Recent.antt =====
-- The ring of lines.
use distributed_software_upd.Prelude.{
  ℕ, zero, suc, ◌+◌, ◌-◌, ◌%◌, ◌≤◌, ◌<◌, min, ◌≡◌, refl, sym, ap, ap₂, ◌∙◌, inl, inr, List, [], ◌∷◌,
  ◌++◌, CString, ◌==◌, if◌then◌else◌, set, length, take, drop, length-append, length-set, copy_str,
  arith, Bool-cases, map, pos, entries, entries-suc, entries-set,
}
use distributed_software_upd.Logger.{Ring, ring_size, line_max, ring_add, copy_lines, logger_recent}

-- The last `n` of a list.
abbrev pub newest : ℕ → List CString → List CString
newest n xs = drop (length xs - n) xs

take_twice : (n : ℕ) (s : CString) → take n (take n s) ≡ take n s
take_twice zero s = refl
take_twice (suc n) [] = refl
take_twice (suc n) (x ∷ s) = ap (λ ys. x ∷ ys) (take_twice n s)

-- A line that was copied fits.
pub copy_twice : (s : CString) → copy_str line_max (copy_str line_max s) ≡ copy_str line_max s
copy_twice s = take_twice 511 s

pub drop-append_le :
    (n : ℕ) (xs ys : List CString) → n ≤ length xs → drop n (xs ++ ys) ≡ drop n xs ++ ys
drop-append_le zero xs ys h = refl
drop-append_le (suc n) [] ys h = absurd (omega arith)
drop-append_le (suc n) (x ∷ xs) ys h = drop-append_le n xs ys (omega arith)

drop_none : (k : ℕ) → drop {A = CString} k [] ≡ []
drop_none zero = refl
drop_none (suc k) = refl

drop-drop : (n m : ℕ) (xs : List CString) → drop n (drop m xs) ≡ drop (m + n) xs
drop-drop n zero xs = ap (λ (k : ℕ). drop k xs) {x = n} {y = 0 + n} (omega arith)
drop-drop n (suc m) [] = drop_none n ∙ sym (drop_none (suc m + n))
drop-drop n (suc m) (x ∷ xs) =
    drop-drop n m xs ∙ ap (λ (k : ℕ). drop k (x ∷ xs)) {x = suc (m + n)} (omega arith)

abbrev pub recent : Ring → List CString
recent r = entries [] r.lines ring_size r.start r.count

-- The ring holds the last lines of what was written.
pub record Holds (output : List CString) (r : Ring) : Type 0 where
  pub room : ring_size ≤ length r.lines
  pub start_in : r.start < ring_size
  pub counted : r.count ≡ min ring_size (length output)
  pub same : recent r ≡ newest ring_size output

-- A line more.
newest-append :
    (output : List CString) (line : CString)
    → newest ring_size (output ++ line ∷ [])
      ≡ drop (length output + 1 - ring_size) output ++ line ∷ []
newest-append output line =
    let len : length (output ++ line ∷ []) ≡ length output + 1 = length-append output (line ∷ []) in
    rw len (drop-append_le (length output + 1 - ring_size) output (line ∷ []) (omega arith))

drop-newest :
    (output : List CString)
    → ring_size ≤ length output
    → drop 1 (newest ring_size output) ≡ drop (length output + 1 - ring_size) output
drop-newest output h =
    drop-drop 1 (length output - ring_size) output ∙ ap (λ (k : ℕ). drop k output) (omega arith)

-- The oldest line is overwritten.
full_recent :
    (r : Ring) (v : CString)
    → ring_size ≤ length r.lines
    → r.start < ring_size
    → entries [] (set r.lines r.start v) ring_size ((r.start + 1) % ring_size) ring_size
      ≡ drop 1 (entries [] r.lines ring_size r.start ring_size) ++ v ∷ []
full_recent r v room start =
    entries-set [] r.lines ring_size ((r.start + 1) % ring_size) 63 r.start v (omega arith)
      (omega arith) room (omega arith)
    ∙ ap (λ xs. drop 1 xs ++ v ∷ []) (sym (entries-suc [] r.lines ring_size r.start 63 start))

pub ring_add-Holds :
    (output : List CString) (r : Ring) (line : CString)
    → Holds output r
    → Holds (output ++ copy_str line_max line ∷ []) (ring_add r line)
unfolding ring_add
ring_add-Holds output r line h = elim (Bool-cases (r.count == ring_size)) [
  | inl t ↦
      let c = h.counted in
      let e : r.count ≡ ring_size = ground arith in
      simp (t, if◌then◌else◌)
        (record {
          room = omega (arith, h.room, length-set r.lines r.start v);
          start_in = omega arith;
          counted = omega (arith, c, e, length-append output (v ∷ []));
          same =
              ap
                (λ (n : ℕ).
                  entries [] (set r.lines r.start v) ring_size ((r.start + 1) % ring_size) n)
                e
              ∙ full_recent r v h.room h.start_in
              ∙ ap (λ xs. drop 1 xs ++ v ∷ [])
                  (ap (entries [] r.lines ring_size r.start) (sym e) ∙ h.same)
              ∙ ap (λ xs. xs ++ v ∷ []) (drop-newest output (omega (arith, c, e)))
              ∙ sym (newest-append output v);
        })
  | inr t ↦
      let c = h.counted in
      let e : r.count < ring_size = ground arith in
      simp (t, if◌then◌else◌)
        (record {
          room = omega (arith, h.room, length-set r.lines ((r.start + r.count) % ring_size) v);
          start_in = h.start_in;
          counted = omega (arith, c, e, length-append output (v ∷ []));
          same =
              ap (entries [] (set r.lines ((r.start + r.count) % ring_size) v) ring_size r.start)
                {x = r.count + 1} {y = suc r.count} (omega arith)
              ∙ entries-set [] r.lines ring_size r.start r.count ((r.start + r.count) % ring_size) v
                  h.start_in e h.room refl
              ∙ ap (λ xs. xs ++ v ∷ [])
                  (h.same ∙ ap (λ (n : ℕ). drop n output) (omega (arith, c, e)))
              ∙ sym (newest-append output v);
        })
]
  where
    v : CString
    v = copy_str line_max line

-- The lines that are copied are the entries from there on.
copy_lines-entries :
    (r : Ring) (start i n : ℕ)
    → copy_lines r start i n
      ≡ map (copy_str line_max) (entries [] r.lines ring_size ((start + i) % ring_size) n)
unfolding copy_lines
copy_lines-entries r start i zero = refl
copy_lines-entries r start i (suc n) =
    let at = (start + i) % ring_size in
    ap₂ (λ (x : CString) (xs : List CString). x ∷ xs) refl
      (copy_lines-entries r start (i + 1) n
        ∙ ap (λ (k : ℕ). map (copy_str line_max) (entries [] r.lines ring_size k n)) (omega arith))
    ∙ ap (map (copy_str line_max)) (sym (entries-suc [] r.lines ring_size at n (omega arith)))

-- Without the first `m` entries.
drop-entries :
    (r : Ring) (h m n : ℕ)
    → h < ring_size
    → drop m (entries [] r.lines ring_size h (m + n))
      ≡ entries [] r.lines ring_size ((h + m) % ring_size) n
drop-entries r h zero n p =
    ap (λ (k : ℕ). entries [] r.lines ring_size h k) {x = 0 + n} {y = n} (omega arith)
    ∙ ap (λ (k : ℕ). entries [] r.lines ring_size k n) {x = h} (omega (arith, p))
drop-entries r h (suc m) n p =
    ap (λ (k : ℕ). drop (suc m) (entries [] r.lines ring_size h k)) {x = suc m + n}
      {y = suc (m + n)} (omega arith)
    ∙ ap (drop (suc m)) (entries-suc [] r.lines ring_size h (m + n) p)
    ∙ drop-entries r ((h + 1) % ring_size) m n (omega arith)
    ∙ ap (λ (k : ℕ). entries [] r.lines ring_size k n) (omega arith)

drop_all : (xs : List CString) → drop (length xs) xs ≡ []
drop_all [] = refl
drop_all (x ∷ xs) = drop_all xs

-- The lines have the length of a line.
abbrev pub AreCopies : List CString → Type 0
AreCopies output = map (copy_str line_max) output ≡ output

map-drop :
    (n : ℕ) (xs : List CString)
    → map (copy_str line_max) (drop n xs) ≡ drop n (map (copy_str line_max) xs)
map-drop zero xs = refl
map-drop (suc n) [] = refl
map-drop (suc n) (x ∷ xs) = map-drop n xs

newest-newest :
    (output : List CString) (k n : ℕ)
    → k ≡ min ring_size (length output)
    → n ≤ k
    → drop (k - n) (newest ring_size output) ≡ newest n output
newest-newest output k n e h =
    drop-drop (k - n) (length output - ring_size) output
    ∙ ap (λ (m : ℕ). drop m output) (omega arith)

copied_recent :
    (output : List CString) (r : Ring) (n : ℕ)
    → Holds output r
    → AreCopies output
    → n ≤ r.count
    → copy_lines r ((r.start + r.count - n + ring_size) % ring_size) 0 n ≡ newest n output
copied_recent output r n h copies le =
    let c = h.counted in
    let start = h.start_in in
    copy_lines-entries r ((r.start + r.count - n + ring_size) % ring_size) 0 n
    ∙ ap (λ (k : ℕ). map (copy_str line_max) (entries [] r.lines ring_size k n))
        {y = (r.start + (r.count - n)) % ring_size} (omega arith)
    ∙ ap (map (copy_str line_max)) (
        sym (drop-entries r r.start (r.count - n) n start)
        ∙ ap (λ (k : ℕ). drop (r.count - n) (entries [] r.lines ring_size r.start k))
            {x = r.count - n + n} {y = r.count} (omega arith)
        ∙ ap (drop (r.count - n)) h.same
        ∙ newest-newest output r.count n c le)
    ∙ map-drop (length output - n) output
    ∙ ap (drop (length output - n)) copies

-- `logger_recent` gives the last lines that were written: `max` of them, or 64, or all.
pub logger_recent-newest :
    (output : List CString) (r : Ring) (max : ℕ)
    → Holds output r
    → AreCopies output
    → logger_recent r (pos max) ≡ newest (min max ring_size) output
unfolding logger_recent
logger_recent-newest output r zero h copies =
    sym (drop_all output) ∙ ap (λ (k : ℕ). drop k output) (omega arith)
logger_recent-newest output r (suc max) h copies =
    let c = h.counted in
    copied_recent output r (min r.count (suc max)) h copies (omega arith)
    ∙ ap (λ (k : ℕ). drop k output) (omega (arith, c))
