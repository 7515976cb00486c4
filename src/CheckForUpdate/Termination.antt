-- ===== src/CheckForUpdate/Termination.antt =====
-- The loop over the attempts comes to an end.
use distributed_software_upd.Prelude.{
  ℕ, ◌+◌, ◌≤◌, ◌<◌, ◌≡◌, refl, ap, ◌∙◌, ◌⊎◌, inl, inr, Bool, true, false, Option, some, List, [],
  ◌∷◌, CString, ltb, if◌then◌else◌, arith, Bool-cases, Option-cases,
}
use distributed_software_upd.VersionTable.{Reading, text_found, get_current_version}
use distributed_software_upd.Download.{
  Attempt, success, retry, reconnect, resume_reconnect, fatal, paused, Client,
}
use distributed_software_upd.Download.Receive.{Settings}
use distributed_software_upd.Download.Resumes.{is_resume, asks_resume}
use distributed_software_upd.Download.Reconnects.{receive_update-is_resume}
use distributed_software_upd.CheckForUpdate.{
  Peer, Try, Exit, failed, Step, leaves, tries, rest_after, run_attempt, wait_for_next, judge, pass,
  retry_loop, check_for_update,
}
use distributed_software_upd.CheckForUpdate.Attempts.{run_attempt-cases}

-- The user asks to go on during a pause of the attempt.
abbrev pub resumes : Try → Bool
resumes t = asks_resume t.peer.events.rounds

-- The passes in which the user does not.
abbrev pub plain_tries : List Try → ℕ
plain_tries [] = 0
plain_tries (t ∷ ts) = if resumes t then plain_tries ts else plain_tries ts + 1

rest_after-is_resume :
    (p : Peer) (r : Attempt × Client) → is_resume r.0 ≡ false → is_resume (rest_after p r).0 ≡ false
rest_after-is_resume p (success, c) h = elim (Bool-cases p.stop_after) [
  | inl t ↦ rw (t, if◌then◌else◌) refl
  | inr t ↦ rw (t, if◌then◌else◌) refl
]
rest_after-is_resume p (retry, c) h = refl
rest_after-is_resume p (reconnect, c) h = refl
rest_after-is_resume p (resume_reconnect, c) h = h
rest_after-is_resume p (fatal, c) h = refl
rest_after-is_resume p (paused, c) h = refl

run_attempt-is_resume :
    (s : Settings) (enable_tls : Bool) (p : Peer) (current : CString) (c : Client)
    → asks_resume p.events.rounds ≡ false
    → is_resume (run_attempt s enable_tls p current c).0 ≡ false
run_attempt-is_resume s enable_tls p current c h =
    elim (run_attempt-cases s enable_tls p current c) [
      | inl calm ↦ calm.1
      | inr o ↦
          ap (λ r. is_resume r.0) o.downloads
          ∙ rest_after-is_resume p _ (receive_update-is_resume s p.events o.meta _ h)
    ]

-- A pass ends the loop, or goes on: with the next number, or, after an attempt that was resumed, with
-- the same.
abbrev GoesOn : ℕ → Bool → Step → Type 0
GoesOn attempt resumed (leaves x c) = Unit {0}
GoesOn attempt resumed (tries n c) = (n ≡ attempt + 1) ⊎ ((n ≡ attempt) × (resumed ≡ true))

wait_for_next-GoesOn :
    (most attempt : ℕ) (resumed : Bool) (t : Try) (c : Client)
    → GoesOn attempt resumed (wait_for_next most attempt t c)
wait_for_next-GoesOn most attempt resumed t c = elim (Bool-cases (ltb attempt most)) [
  | inr h ↦ rw (h, if◌then◌else◌) tt
  | inl h ↦ elim (Bool-cases t.stop_waiting) [
    | inl k ↦ simp (h, if◌then◌else◌, k) tt
    | inr k ↦ simp (h, if◌then◌else◌, k) (inl refl)
  ]
]

judge-GoesOn :
    (most attempt : ℕ) (resumed : Bool) (t : Try) (r : Attempt × Client)
    → (resumed ≡ false → is_resume r.0 ≡ false)
    → GoesOn attempt resumed (judge most attempt t r)
judge-GoesOn most attempt resumed t (success, c) h = tt
judge-GoesOn most attempt resumed t (retry, c) h = wait_for_next-GoesOn most attempt resumed t c
judge-GoesOn most attempt resumed t (reconnect, c) h = wait_for_next-GoesOn most attempt resumed t c
judge-GoesOn most attempt resumed t (fatal, c) h = tt
judge-GoesOn most attempt resumed t (paused, c) h = tt
judge-GoesOn most attempt resumed t (resume_reconnect, c) h = elim (Bool-cases (ltb attempt most)) [
  | inr k ↦ rw (k, if◌then◌else◌) tt
  | inl k ↦ elim (Bool-cases resumed) [
    | inl b ↦ rw (k, if◌then◌else◌) (inr (refl, b))
    | inr b ↦ absurd (cc (h b))
  ]
]

module _ (s : Settings) (enable_tls : Bool) (most : ℕ) (current : CString) where
  pass-GoesOn :
      (attempt : ℕ) (t : Try) (c : Client)
      → GoesOn attempt (resumes t) (pass s enable_tls most current attempt t c)
  unfolding pass
  pass-GoesOn attempt t c = elim (Bool-cases t.stop) [
    | inl h ↦ simp (h, if◌then◌else◌) tt
    | inr h ↦
        simp (h, if◌then◌else◌)
          (judge-GoesOn most attempt (resumes t) t (run_attempt s enable_tls t.peer current c)
            (run_attempt-is_resume s enable_tls t.peer current c))
  ]

  -- The loop ends in the passes that it is given.
  abbrev Ends : Option (Exit × Client) → Type 0
  Ends r = (x : Exit × Client) × (r ≡ some x)

  step-Ends :
      (attempt k : ℕ) (resumed : Bool) (ts : List Try) (st : Step)
      → GoesOn attempt resumed st
      → most < attempt + (if resumed then k else k + 1)
      → ((n : ℕ) (c : Client) → most < n + k → Ends (retry_loop s enable_tls most current n ts c))
      → Ends (elim st [
        | leaves x c' ↦ some (x, c')
        | tries n c' ↦ retry_loop s enable_tls most current n ts c'
      ])
  step-Ends attempt k resumed ts (leaves x c) g h later = ((x, c), refl)
  step-Ends attempt k true ts (tries n c) (inl e) h later = later n c (omega (arith, e, h))
  step-Ends attempt k false ts (tries n c) (inl e) h later = later n c (omega (arith, e, h))
  step-Ends attempt k true ts (tries n c) (inr (e, _)) h later = later n c (omega (arith, e, h))
  step-Ends attempt k false ts (tries n c) (inr (e, b)) h later = absurd (cc)

  retry_loop-Ends :
      (ts : List Try) (attempt : ℕ) (c : Client)
      → most < attempt + plain_tries ts
      → Ends (retry_loop s enable_tls most current attempt ts c)
  unfolding retry_loop
  retry_loop-Ends [] attempt c h =
      let e : ltb most attempt ≡ true = ground arith in ((failed, c), rw (e, if◌then◌else◌) refl)
  retry_loop-Ends (t ∷ ts) attempt c h = elim (Bool-cases (ltb most attempt)) [
    | inl e ↦ ((failed, c), rw (e, if◌then◌else◌) refl)
    | inr e ↦
        let (x, q) =
          step-Ends attempt (plain_tries ts) (resumes t) ts
            (pass s enable_tls most current attempt t c) (pass-GoesOn attempt t c) h
            (retry_loop-Ends ts) in
        (x, rw (e, if◌then◌else◌) q)
  ]

-- `CheckForUpdate` returns: RETRY_MAX passes in which the user does not resume a paused download are
-- enough, however many passes there are besides in which he does. What the passes meet is arbitrary.
pub check_for_update_ends :
    (s : Settings) (enable_tls : Bool) (most : ℕ) (configured : CString) (locked : Bool)
    (reading : Reading) (ts : List Try) (c : Client)
    → most ≤ plain_tries ts
    → (x : Exit × Client) × (check_for_update s enable_tls most configured locked reading ts c
        ≡ some x)
unfolding check_for_update
check_for_update_ends s enable_tls most configured locked reading ts c h =
    elim (Option-cases (
      get_current_version configured s.client_id locked
        (text_found reading (c.disk s.version_file)))) [
          | inl n ↦ ((failed, c), rw (n, check_for_update) refl)
          | inr (current, n) ↦
              let (x, q) = retry_loop-Ends s enable_tls most current ts 1 c (omega (arith, h)) in
              (x, rw (n, check_for_update) q)
        ]
