-- ===== src/Net/Progress.antt =====
-- When the loops of `conn_write_all` and `conn_read_all` return 0: the connection lasts long enough.
use distributed_software_upd.Prelude.{
  ℕ, zero, suc, ◌+◌, ◌-◌, ◌≤◌, ◌<◌, min, ◌≡◌, refl, ◌⊎◌, inl, inr, Bool, true, false, List, [], ◌∷◌,
  ◌++◌, ltb, length, take, drop, arith, length-drop,
}
use distributed_software_upd.Net.{
  Outcome, moved, interrupted, want, broken, Conn, again, go_on, verdict, chunk, write_loop,
  conn_write_all, read_loop, conn_read_all,
}

-- The calls move a byte at least `n` times before one of them fails. Interruptions do not matter,
-- where they are of the kind that the loops go on after.
abbrev pub Lively : Bool → List Outcome → ℕ → Type 0
Lively ssl calls zero = Unit {0}
Lively ssl [] (suc n) = ⊥
Lively ssl (moved zero ∷ calls) (suc n) = ⊥
Lively ssl (moved (suc k) ∷ calls) (suc n) = Lively ssl calls n
Lively ssl (interrupted ∷ calls) (suc n) = (ssl ≡ false) × Lively ssl calls (suc n)
Lively ssl (want ∷ calls) (suc n) = (ssl ≡ true) × Lively ssl calls (suc n)
Lively ssl (broken ∷ calls) (suc n) = ⊥

Lively-le :
    (ssl : Bool) (calls : List Outcome) (n m : ℕ) → m ≤ n → Lively ssl calls n → Lively ssl calls m
Lively-le ssl calls n zero p h = tt
Lively-le ssl calls zero (suc m) p h = absurd (omega arith)
Lively-le ssl [] (suc n) (suc m) p h = h
Lively-le ssl (moved zero ∷ calls) (suc n) (suc m) p h = h
Lively-le ssl (moved (suc k) ∷ calls) (suc n) (suc m) p h = Lively-le ssl calls n m (omega arith) h
Lively-le ssl (interrupted ∷ calls) (suc n) (suc m) p h =
    (h.0, Lively-le ssl calls (suc n) (suc m) p h.1)
Lively-le ssl (want ∷ calls) (suc n) (suc m) p h = (h.0, Lively-le ssl calls (suc n) (suc m) p h.1)
Lively-le ssl (broken ∷ calls) (suc n) (suc m) p h = h

-- What lively calls answer: an interruption that the loop goes on after, or some bytes.
Lively-cases :
    (ssl : Bool) (o : Outcome) (calls : List Outcome) (n most : ℕ)
    → 0 < most
    → Lively ssl (o ∷ calls) (suc n)
    → ((verdict ssl o most ≡ again) × Lively ssl calls (suc n))
      ⊎ ((k : ℕ) × (verdict ssl o most ≡ go_on k) × (0 < k) × (k ≤ most) × Lively ssl calls n)
Lively-cases ssl (moved zero) calls n most p h = absurd h
Lively-cases ssl (moved (suc k)) calls n most p h =
    let e : ltb 0 most ≡ true = ground arith in
    inr (min (suc k) most, rw e refl, omega arith, omega arith, h)
Lively-cases ssl interrupted calls n most p h = inl (rw h.0 refl, h.1)
Lively-cases ssl want calls n most p h = inl (rw h.0 refl, h.1)
Lively-cases ssl broken calls n most p h = absurd h

write_loop-Lively :
    (ssl : Bool) (calls : List Outcome) (buf out : List ℕ)
    → Lively ssl calls (length buf)
    → (write_loop ssl calls buf out).0 ≡ true
unfolding write_loop
write_loop-Lively ssl calls [] out h = refl
write_loop-Lively ssl [] (b ∷ buf) out h = absurd h
write_loop-Lively ssl (o ∷ calls) (b ∷ buf) out h =
    let len = length (b ∷ buf) in
    elim (Lively-cases ssl o calls (length buf) (chunk len) (ground arith) h) [
      | inl (e, l) ↦ rw (e, write_loop) (write_loop-Lively ssl calls (b ∷ buf) out l)
      | inr (k, e, p, q, l) ↦
          rw (e, write_loop)
            (write_loop-Lively ssl calls (drop k (b ∷ buf)) (out ++ take k (b ∷ buf)) (
              Lively-le ssl calls (length buf) (length (drop k (b ∷ buf)))
                (omega (arith, length-drop k (b ∷ buf))) l))
    ]

-- `conn_write_all` returns 0 wherever the calls can move as many bytes as the buffer holds.
pub conn_write_all_progress :
    (c : Conn) (buf : List ℕ) → Lively c.ssl c.calls (length buf) → (conn_write_all c buf).0 ≡ true
unfolding conn_write_all
conn_write_all_progress c buf h = write_loop-Lively c.ssl c.calls buf c.outgoing h

read_loop-Lively :
    (ssl : Bool) (calls : List Outcome) (len m : ℕ) (input buf : List ℕ)
    → len ≤ length input
    → Lively ssl calls (len + m)
    → let r = read_loop ssl calls len input buf in (r.0 ≡ true) × Lively ssl r.1 m
unfolding read_loop
read_loop-Lively ssl calls zero m input buf p h =
    (refl, Lively-le ssl calls (0 + m) m (omega arith) h)
read_loop-Lively ssl [] (suc len) m input buf p h =
    absurd (Lively-le ssl [] (suc len + m) 1 (omega arith) h)
read_loop-Lively ssl (o ∷ calls) (suc len) m input buf p h =
    elim (Lively-cases ssl o calls (len + m) (min (chunk (suc len)) (length input)) (ground arith)
      (Lively-le ssl (o ∷ calls) (suc len + m) (suc (len + m)) (omega arith) h)) [
        | inl (e, l) ↦
            rw (e, read_loop)
              (read_loop-Lively ssl calls (suc len) m input buf p
                (Lively-le ssl calls (suc (len + m)) (suc len + m) (omega arith) l))
        | inr (k, e, q, r, l) ↦
            rw (e, read_loop)
              (read_loop-Lively ssl calls (suc len - k) m (drop k input) (buf ++ take k input)
                (omega (arith, length-drop k input))
                (Lively-le ssl calls (len + m) (suc len - k + m) (ground arith) l))
      ]

-- `conn_read_all` returns 0 wherever the bytes are there and the calls can move them, and leaves
-- what more calls there were.
pub conn_read_all_progress :
    (c : Conn) (len m : ℕ)
    → len ≤ length c.incoming
    → Lively c.ssl c.calls (len + m)
    → let (ok, bytes, c') = conn_read_all c len in (ok ≡ true) × Lively c'.ssl c'.calls m
unfolding conn_read_all
conn_read_all_progress c len m p h = read_loop-Lively c.ssl c.calls len m c.incoming [] p h
