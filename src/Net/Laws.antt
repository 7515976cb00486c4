-- ===== src/Net/Laws.antt =====
-- What `conn_write_all` and `conn_read_all` promise.
use distributed_software_upd.Prelude.{
  ℕ, zero, suc, ◌+◌, ◌-◌, ◌≤◌, ◌<◌, min, ◌≡◌, refl, sym, ap, ◌∙◌, ◌⊎◌, inl, inr, Bool, true, false,
  List, [], ◌∷◌, ◌++◌, ltb, length, take, drop, arith, Bool-cases, append_assoc, take-append-drop,
  append-nil, length-drop,
}
use distributed_software_upd.Net.{
  Outcome, moved, interrupted, want, broken, Conn, stop, again, go_on, verdict, chunk, write_loop,
  conn_write_all, read_loop, conn_read_all,
}

-- The ways a loop goes on after a call.
pub verdict-cases :
    (ssl : Bool) (o : Outcome) (most : ℕ)
    → (verdict ssl o most ≡ stop)
      ⊎ (verdict ssl o most ≡ again)
      ⊎ ((n : ℕ) × (verdict ssl o most ≡ go_on n) × (0 < n) × (n ≤ most))
verdict-cases ssl (moved zero) most = inl refl
verdict-cases ssl (moved (suc n)) most = elim (Bool-cases (ltb 0 most)) [
  | inl e ↦ inr (inr (min (suc n) most, rw e refl, ground arith, omega arith))
  | inr e ↦ inl (rw e refl)
]
verdict-cases true interrupted most = inl refl
verdict-cases false interrupted most = inr (inl refl)
verdict-cases true want most = inr (inl refl)
verdict-cases false want most = inl refl
verdict-cases ssl broken most = inl refl

-- A run of the write loop: it appends the first `k` bytes of the buffer, all of them on success.
abbrev pub Wrote : List ℕ → List ℕ → Bool × List ℕ → Type 0
Wrote buf out r = (k : ℕ) × (r.1 ≡ out ++ take k buf) × (r.0 ≡ true → r.1 ≡ out ++ buf)

take-add : (n k : ℕ) (xs : List ℕ) → take (n + k) xs ≡ take n xs ++ take k (drop n xs)
take-add zero k xs = ap (λ (m : ℕ). take m xs) {x = 0 + k} {y = k} (omega arith)
take-add (suc n) zero [] = let e : suc n + 0 ≡ suc n = omega arith in rw e refl
take-add (suc n) (suc k) [] = let e : suc n + suc k ≡ suc (n + suc k) = omega arith in rw e refl
take-add (suc n) k (x ∷ xs) =
    let e : suc n + k ≡ suc (n + k) = omega arith in rw e (ap (λ ys. x ∷ ys) (take-add n k xs))

drop-add : (n k : ℕ) (xs : List ℕ) → drop (n + k) xs ≡ drop k (drop n xs)
drop-add zero k xs = ap (λ (m : ℕ). drop m xs) {x = 0 + k} {y = k} (omega arith)
drop-add (suc n) zero [] = let e : suc n + 0 ≡ suc n = omega arith in rw e refl
drop-add (suc n) (suc k) [] = let e : suc n + suc k ≡ suc (n + suc k) = omega arith in rw e refl
drop-add (suc n) k (x ∷ xs) =
    let e : suc n + k ≡ suc (n + k) = omega arith in rw e (drop-add n k xs)

abbrev result : Bool × List Outcome × List ℕ → Bool × List ℕ
result r = (r.0, r.2)

write_loop-Wrote :
    (ssl : Bool) (calls : List Outcome) (buf out : List ℕ)
    → Wrote buf out (result (write_loop ssl calls buf out))
unfolding write_loop
write_loop-Wrote ssl calls [] out = (0, simp append-nil, λ _. simp append-nil)
write_loop-Wrote ssl [] (b ∷ buf) out = (0, simp append-nil, λ e. absurd (cc))
write_loop-Wrote ssl (o ∷ calls) (b ∷ buf) out =
    elim (verdict-cases ssl o (chunk (length (b ∷ buf)))) [
      | inl e ↦ rw (e, write_loop) (0, simp append-nil, λ h. absurd (cc))
      | inr (inl e) ↦ rw (e, write_loop) (write_loop-Wrote ssl calls (b ∷ buf) out)
      | inr (inr (n, e, _, _)) ↦
          let (k, p, q) = write_loop-Wrote ssl calls (drop n (b ∷ buf)) (out ++ take n (b ∷ buf)) in
          rw (e, write_loop)
            (
              n + k,
              p
                  ∙ append_assoc out (take n (b ∷ buf)) (take k (drop n (b ∷ buf)))
                  ∙ ap (λ ys. out ++ ys) (sym (take-add n k (b ∷ buf))),
              λ h.
                  q h
                  ∙ append_assoc out (take n (b ∷ buf)) (drop n (b ∷ buf))
                  ∙ ap (λ ys. out ++ ys) (take-append-drop n (b ∷ buf)),
            )
    ]

-- `conn_write_all` puts out a prefix of the buffer, whatever the calls answer, and the whole
-- buffer where it returns 0. It leaves the bytes to be read alone.
pub conn_write_all_lem :
    (c : Conn) (buf : List ℕ)
    → let (ok, c') = conn_write_all c buf in
      Wrote buf c.outgoing (ok, c'.outgoing) × (c'.incoming ≡ c.incoming) × (c'.ssl ≡ c.ssl)
unfolding conn_write_all
conn_write_all_lem c buf = (write_loop-Wrote c.ssl c.calls buf c.outgoing, refl, refl)

-- A run of the read loop that succeeds has moved the next `len` bytes, neither more nor less.
abbrev Read : ℕ → List ℕ → List ℕ → Bool × List Outcome × List ℕ × List ℕ → Type 0
Read len input buf r =
    r.0 ≡ true → (r.3 ≡ buf ++ take len input) × (r.2 ≡ drop len input) × (len ≤ length input)

read_loop-Read :
    (ssl : Bool) (calls : List Outcome) (len : ℕ) (input buf : List ℕ)
    → Read len input buf (read_loop ssl calls len input buf)
unfolding read_loop
read_loop-Read ssl calls zero input buf = λ h. (simp append-nil, refl, omega arith)
read_loop-Read ssl [] (suc len) input buf = λ h. absurd (cc)
read_loop-Read ssl (o ∷ calls) (suc len) input buf =
    elim (verdict-cases ssl o (min (chunk (suc len)) (length input))) [
      | inl e ↦ rw (e, read_loop) (λ h. absurd (cc))
      | inr (inl e) ↦ rw (e, read_loop) (read_loop-Read ssl calls (suc len) input buf)
      | inr (inr (n, e, _, l)) ↦
          let b : n + (suc len - n) ≡ suc len = ground arith in
          rw (e, read_loop)
            (λ h.
              let (p, q, r) =
                read_loop-Read ssl calls (suc len - n) (drop n input) (buf ++ take n input) h in
              (
                p
                    ∙ append_assoc buf (take n input) (take (suc len - n) (drop n input))
                    ∙ ap (λ ys. buf ++ ys)
                        (sym (take-add n (suc len - n) input) ∙ ap (λ (k : ℕ). take k input) b),
                q ∙ sym (drop-add n (suc len - n) input) ∙ ap (λ (k : ℕ). drop k input) b,
                omega (arith, length-drop n input),
              ))
    ]

-- Where `conn_read_all` returns 0, it has handed over exactly the next `len` bytes of the stream,
-- and the rest of the stream stands next.
pub conn_read_all_lem :
    (c : Conn) (len : ℕ)
    → let (ok, bytes, c') = conn_read_all c len in
      ok ≡ true
      → (bytes ≡ take len c.incoming)
        × (c'.incoming ≡ drop len c.incoming)
        × (len ≤ length c.incoming)
        × (c'.outgoing ≡ c.outgoing)
        × (c'.ssl ≡ c.ssl)
unfolding conn_read_all
conn_read_all_lem c len h =
    let (p, q, r) = read_loop-Read c.ssl c.calls len c.incoming [] h in (p, q, r, refl, refl)
