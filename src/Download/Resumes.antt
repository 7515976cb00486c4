-- ===== src/Download/Resumes.antt =====
-- When a download ends with ATTEMPT_RESUME_RECONNECT.
use distributed_software_upd.Prelude.{
  ℕ, zero, suc, ◌+◌, ◌%◌, ◌^◌, ◌≡◌, refl, ◌⊎◌, inl, inr, Bool, true, false, ◌||◌, List, [], ◌∷◌,
  codes, ltb, if◌then◌else◌, length, arith, Bool-cases,
}
use distributed_software_upd.Net.{Conn}
use distributed_software_upd.Protocol.{
  Recv, recv_ok, recv_eof, recv_bad, recv_too_large, is_type, msg_data, msg_transfer_done,
  proto_recv,
}
use distributed_software_upd.Protocol.Fields.{kv_get}
use distributed_software_upd.Session.{c_text}
use distributed_software_upd.Download.{
  Attempt, success, retry, reconnect, resume_reconnect, fatal, paused, Client, Update,
  save_interrupted_download, Wait, Waited, resumed, expired, gave_up, wait_for_gui_resume, Round,
  Next, ends, goes_on, complete, after_pause, hold, pause_download, take_data, same_sha, take_done,
  lost, take_frame, round_of, receive_loop,
}

abbrev pub is_resume : Attempt → Bool
is_resume success = false
is_resume retry = false
is_resume reconnect = false
is_resume resume_reconnect = true
is_resume fatal = false
is_resume paused = false

-- Whether somebody asks to go on during some pause.
abbrev pub any_resume : List Wait → Bool
any_resume [] = false
any_resume (w ∷ ws) = w.resume || any_resume ws

abbrev pub asks_resume : List Round → Bool
asks_resume [] = false
asks_resume (r ∷ rs) = any_resume r.waits || asks_resume rs

wait_for_gui_resume-gave_up :
    (rounds : ℕ) (ws : List Wait) (c : Client)
    → any_resume ws ≡ false
    → (wait_for_gui_resume rounds ws c).0 ≡ gave_up
unfolding wait_for_gui_resume
wait_for_gui_resume-gave_up zero ws c h = refl
wait_for_gui_resume-gave_up (suc rounds) [] c h = refl
wait_for_gui_resume-gave_up (suc rounds) (w ∷ ws) c h = elim (Bool-cases w.stop) [
  | inl t ↦ rw t refl
  | inr t ↦
      let k : w.resume ≡ false = ground arith in
      rw (t, k) (wait_for_gui_resume-gave_up rounds ws c (ground arith))
]

-- A round does not end that way.
abbrev IsOther : Next → Type 0
IsOther (ends a c) = is_resume a ≡ false
IsOther (goes_on n c) = Unit {0}
IsOther (complete c) = Unit {0}

after_pause-IsOther :
    (received : ℕ) (w : Waited × Client) → w.0 ≡ gave_up → IsOther (after_pause received w)
after_pause-IsOther received (resumed, c) h = tt
after_pause-IsOther received (expired, c) h = absurd (cc)
after_pause-IsOther received (gave_up, c) h = refl

hold-IsOther :
    (rounds : ℕ) (ws : List Wait) (received : ℕ) (r : Bool × Client)
    → any_resume ws ≡ false
    → IsOther (hold rounds ws received r)
hold-IsOther rounds ws received (false, c) h = refl
hold-IsOther rounds ws received (true, c) h =
    after_pause-IsOther received (wait_for_gui_resume rounds ws c)
      (wait_for_gui_resume-gave_up rounds ws c h)

take_data-IsOther :
    (u : Update) (r : Round) (received : ℕ) (bytes : List ℕ) (c : Client)
    → IsOther (take_data u r received bytes c)
unfolding take_data
take_data-IsOther u r received bytes c =
    elim (Bool-cases (ltb u.size ((received + length bytes) % 2 ^ 64))) [
      | inl t ↦ rw (t, if◌then◌else◌) refl
      | inr t ↦ elim (Bool-cases (ltb r.writes (length bytes))) [
        | inl v ↦ rw (t, if◌then◌else◌, v) refl
        | inr v ↦ rw (t, if◌then◌else◌, v) tt
      ]
    ]

take_done-IsOther : (u : Update) (payload : List ℕ) (c : Client) → IsOther (take_done u payload c)
unfolding take_done
take_done-IsOther u payload c =
    elim (Bool-cases (same_sha u.sha (kv_get (c_text payload) (codes "sha256") 65))) [
      | inl t ↦ rw (t, if◌then◌else◌) tt
      | inr t ↦ rw (t, if◌then◌else◌) refl
    ]

lost-IsOther : (u : Update) (r : Round) (received : ℕ) (c : Client) → IsOther (lost u r received c)
unfolding lost save_interrupted_download
lost-IsOther u r received c = elim (Bool-cases r.stop_late) [
  | inl t ↦ rw (t, if◌then◌else◌) refl
  | inr t ↦ rw (t, if◌then◌else◌) refl
]

take_frame-IsOther :
    (u : Update) (r : Round) (received : ℕ) (got : Recv × Conn) (c : Client)
    → IsOther (take_frame u r received got c)
take_frame-IsOther u r received (recv_ok type flags payload, conn) c =
    elim (Bool-cases (is_type type msg_data)) [
      | inl t ↦
          rw (t, if◌then◌else◌) (take_data-IsOther u r received payload (record c { conn = conn }))
      | inr t ↦ elim (Bool-cases (is_type type msg_transfer_done)) [
        | inl v ↦ rw (t, if◌then◌else◌, v) (take_done-IsOther u payload (record c { conn = conn }))
        | inr v ↦ rw (t, if◌then◌else◌, v) refl
      ]
    ]
take_frame-IsOther u r received (recv_eof, conn) c =
    lost-IsOther u r received (record c { conn = conn })
take_frame-IsOther u r received (recv_bad, conn) c =
    lost-IsOther u r received (record c { conn = conn })
take_frame-IsOther u r received (recv_too_large, conn) c =
    lost-IsOther u r received (record c { conn = conn })

round_of-IsOther :
    (u : Update) (rounds : ℕ) (r : Round) (received : ℕ) (c : Client)
    → any_resume r.waits ≡ false
    → IsOther (round_of u rounds r received c)
unfolding round_of pause_download save_interrupted_download lost
round_of-IsOther u rounds r received c h = elim (Bool-cases r.pause) [
  | inl t ↦ rw (t, if◌then◌else◌) (hold-IsOther rounds r.waits received _ h)
  | inr t ↦ elim (Bool-cases r.stop) [
    | inl v ↦ rw (t, if◌then◌else◌, v) refl
    | inr v ↦
        rw (t, if◌then◌else◌, v)
          (take_frame-IsOther u r received (proto_recv c.conn (u.chunk + 1) u.chunk) c)
  ]
]

abbrev pub LoopIsOther : (Attempt × Client) ⊎ Client → Type 0
LoopIsOther (inl (a, c)) = is_resume a ≡ false
LoopIsOther (inr c) = Unit {0}

loop_cases :
    (u : Update) (rounds : ℕ) (rs : List Round) (n : Next)
    → IsOther n
    → ((received : ℕ) (next : Client) → LoopIsOther (receive_loop u rounds rs received next))
    → LoopIsOther (elim n [
      | ends a c' ↦ inl (a, c')
      | complete c' ↦ inr c'
      | goes_on m c' ↦ receive_loop u rounds rs m c'
    ])
loop_cases u rounds rs (ends a c') g later = g
loop_cases u rounds rs (complete c') g later = tt
loop_cases u rounds rs (goes_on m c') g later = later m c'

pub receive_loop-IsOther :
    (u : Update) (rounds : ℕ) (rs : List Round) (received : ℕ) (c : Client)
    → asks_resume rs ≡ false
    → LoopIsOther (receive_loop u rounds rs received c)
unfolding receive_loop save_interrupted_download
receive_loop-IsOther u rounds [] received c h = refl
receive_loop-IsOther u rounds (r ∷ rs) received c h =
    loop_cases u rounds rs (round_of u rounds r received c)
      (round_of-IsOther u rounds r received c (ground arith))
      (λ received next. receive_loop-IsOther u rounds rs received next (ground arith))
