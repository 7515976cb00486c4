-- ===== src/Download/Elsewhere.antt =====
-- The files that a download leaves as they are.
use distributed_software_upd.Prelude.{
  ℕ, zero, suc, ◌+◌, ◌%◌, ◌^◌, ◌<◌, ◌≡◌, refl, sym, ap, ◌∙◌, ◌⊎◌, inl, inr, Bool, true, false, ◌&&◌,
  Option, List, [], ◌∷◌, CString, ltb, if◌then◌else◌, length, str_eq, str_eq_self, str_eq-eq, arith,
  Bool-cases, codes,
}
use distributed_software_upd.Protocol.{
  Recv, recv_ok, recv_eof, recv_bad, recv_too_large, is_type, msg_data, msg_transfer_done,
  proto_recv, proto_send_text, msg_resume,
}
use distributed_software_upd.Protocol.Fields.{kv_get}
use distributed_software_upd.Session.{c_text}
use distributed_software_upd.Net.{Conn}
use distributed_software_upd.Download.{
  Attempt, success, retry, reconnect, resume_reconnect, fatal, paused, Disk, set_file, Client,
  Update, resume_path, write_resume_metadata, save_interrupted_download, Wait, Waited,
  wait_for_gui_resume, Round, Next, ends, goes_on, complete, pause_download, take_data, same_sha,
  take_done, lost, take_frame, round_of, receive_loop, with_conn, after_resume, resumed, expired,
  gave_up, after_pause, hold,
}

-- Paths of different lengths.
pub longer_path : (p q : CString) → length p < length q → str_eq p q ≡ false
longer_path p q h = elim (Bool-cases (str_eq p q)) [
  | inl t ↦ absurd (omega (arith, h, ap length (str_eq-eq p q t)))
  | inr t ↦ t
]

pub other_path : (p q : CString) → str_eq p q ≡ false → str_eq q p ≡ false
other_path p q h = elim (Bool-cases (str_eq q p)) [
  | inl t ↦ absurd (cc (sym h ∙ ap (str_eq p) (str_eq-eq q p t) ∙ str_eq_self p))
  | inr t ↦ t
]

pub set_file_other :
    (path p : CString) (v : Option (List ℕ)) (disk : Disk)
    → str_eq p path ≡ false
    → set_file path v disk p ≡ disk p
set_file_other path p v disk h = rw (h, if◌then◌else◌) refl

after_resume-disk :
    (c : Client) (sent : Bool × Conn) → (after_resume (with_conn c sent)).1.disk ≡ c.disk
after_resume-disk c (true, conn) = refl
after_resume-disk c (false, conn) = refl

wait_for_gui_resume-disk :
    (rounds : ℕ) (ws : List Wait) (c : Client) → (wait_for_gui_resume rounds ws c).1.disk ≡ c.disk
unfolding wait_for_gui_resume
wait_for_gui_resume-disk zero ws c = refl
wait_for_gui_resume-disk (suc rounds) [] c = refl
wait_for_gui_resume-disk (suc rounds) (w ∷ ws) c = elim (Bool-cases w.stop) [
  | inl t ↦ rw t refl
  | inr t ↦ elim (Bool-cases w.resume) [
    | inr v ↦ rw (t, v) (wait_for_gui_resume-disk rounds ws c)
    | inl v ↦
        rw (t, v) (after_resume-disk c (proto_send_text c.conn msg_resume (codes "status=resume")))
  ]
]

-- The attempt came to its end.
abbrev pub is_success : Attempt → Bool
is_success success = true
is_success retry = false
is_success reconnect = false
is_success resume_reconnect = false
is_success fatal = false
is_success paused = false

module _ (u : Update) (p : CString) (h : str_eq p u.part_path ≡ false)
    (k : str_eq p (resume_path u) ≡ false) where
  write_resume_metadata-elsewhere :
      (offset : ℕ) (disk : Disk) → write_resume_metadata u offset disk p ≡ disk p
  unfolding write_resume_metadata
  write_resume_metadata-elsewhere offset disk =
      elim (Bool-cases (ltb (length (resume_path u)) 512 && u.meta_opens)) [
        | inl t ↦ rw (t, if◌then◌else◌, k) refl
        | inr t ↦ rw (t, if◌then◌else◌) refl
      ]

  pub save_interrupted_download-elsewhere :
      (offset : ℕ) (a : Attempt) (c : Client)
      → (save_interrupted_download u offset a c).1.disk p ≡ c.disk p
  unfolding save_interrupted_download
  save_interrupted_download-elsewhere offset success c =
      write_resume_metadata-elsewhere offset c.disk
  save_interrupted_download-elsewhere offset retry c = write_resume_metadata-elsewhere offset c.disk
  save_interrupted_download-elsewhere offset reconnect c =
      write_resume_metadata-elsewhere offset c.disk
  save_interrupted_download-elsewhere offset resume_reconnect c =
      write_resume_metadata-elsewhere offset c.disk
  save_interrupted_download-elsewhere offset fatal c = write_resume_metadata-elsewhere offset c.disk
  save_interrupted_download-elsewhere offset paused c =
      write_resume_metadata-elsewhere offset c.disk

  -- A round that ends the attempt does not succeed, and no round changes the file.
  abbrev Kept : Client → Next → Type 0
  Kept c (ends a c') = (c'.disk p ≡ c.disk p) × (is_success a ≡ false)
  Kept c (goes_on n c') = c'.disk p ≡ c.disk p
  Kept c (complete c') = c'.disk p ≡ c.disk p

  after_pause-Kept :
      (received : ℕ) (c : Client) (w : Waited × Client)
      → w.1.disk p ≡ c.disk p
      → Kept c (after_pause received w)
  after_pause-Kept received c (resumed, c') e = e
  after_pause-Kept received c (expired, c') e = (e, refl)
  after_pause-Kept received c (gave_up, c') e = (e, refl)

  hold-Kept :
      (rounds : ℕ) (ws : List Wait) (received : ℕ) (c : Client) (r : Bool × Client)
      → r.1.disk p ≡ c.disk p
      → Kept c (hold rounds ws received r)
  hold-Kept rounds ws received c (false, c') e = (e, refl)
  hold-Kept rounds ws received c (true, c') e =
      after_pause-Kept received c (wait_for_gui_resume rounds ws c')
        (ap (λ (d : Disk). d p) (wait_for_gui_resume-disk rounds ws c') ∙ e)

  take_data-Kept :
      (r : Round) (received : ℕ) (bytes : List ℕ) (c : Client)
      → Kept c (take_data u r received bytes c)
  unfolding take_data
  take_data-Kept r received bytes c =
      elim (Bool-cases (ltb u.size ((received + length bytes) % 2 ^ 64))) [
        | inl t ↦ rw (t, if◌then◌else◌, h) (refl, refl)
        | inr t ↦ elim (Bool-cases (ltb r.writes (length bytes))) [
          | inl v ↦ rw (t, if◌then◌else◌, v, h) (refl, refl)
          | inr v ↦ rw (t, if◌then◌else◌, v, h) refl
        ]
      ]

  take_done-Kept : (payload : List ℕ) (c : Client) → Kept c (take_done u payload c)
  unfolding take_done
  take_done-Kept payload c =
      elim (Bool-cases (same_sha u.sha (kv_get (c_text payload) (codes "sha256") 65))) [
        | inl t ↦ rw (t, if◌then◌else◌) refl
        | inr t ↦ rw (t, if◌then◌else◌, h) (refl, refl)
      ]

  lost-Kept : (r : Round) (received : ℕ) (c : Client) → Kept c (lost u r received c)
  unfolding lost save_interrupted_download
  lost-Kept r received c = elim (Bool-cases r.stop_late) [
    | inl t ↦ rw (t, if◌then◌else◌) (save_interrupted_download-elsewhere received paused c, refl)
    | inr t ↦ rw (t, if◌then◌else◌) (save_interrupted_download-elsewhere received reconnect c, refl)
  ]

  take_frame-Kept :
      (r : Round) (received : ℕ) (got : Recv × Conn) (c : Client)
      → Kept c (take_frame u r received got c)
  take_frame-Kept r received (recv_ok type flags payload, conn) c =
      elim (Bool-cases (is_type type msg_data)) [
        | inl t ↦
            rw (t, if◌then◌else◌) (take_data-Kept r received payload (record c { conn = conn }))
        | inr t ↦ elim (Bool-cases (is_type type msg_transfer_done)) [
          | inl v ↦ rw (t, if◌then◌else◌, v) (take_done-Kept payload (record c { conn = conn }))
          | inr v ↦ rw (t, if◌then◌else◌, v) (refl, refl)
        ]
      ]
  take_frame-Kept r received (recv_eof, conn) c = lost-Kept r received (record c { conn = conn })
  take_frame-Kept r received (recv_bad, conn) c = lost-Kept r received (record c { conn = conn })
  take_frame-Kept r received (recv_too_large, conn) c =
      lost-Kept r received (record c { conn = conn })

  round_of-Kept :
      (rounds : ℕ) (r : Round) (received : ℕ) (c : Client) → Kept c (round_of u rounds r received c)
  unfolding round_of pause_download save_interrupted_download lost
  round_of-Kept rounds r received c = elim (Bool-cases r.pause) [
    | inl t ↦
        rw (t, if◌then◌else◌)
          (hold-Kept rounds r.waits received c _ (write_resume_metadata-elsewhere received c.disk))
    | inr t ↦ elim (Bool-cases r.stop) [
      | inl v ↦
          rw (t, if◌then◌else◌, v) (save_interrupted_download-elsewhere received paused c, refl)
      | inr v ↦
          rw (t, if◌then◌else◌, v)
            (take_frame-Kept r received (proto_recv c.conn (u.chunk + 1) u.chunk) c)
    ]
  ]

  -- The loop as a whole.
  abbrev pub LoopKept : Client → (Attempt × Client) ⊎ Client → Type 0
  LoopKept c (inl (a, c')) = (c'.disk p ≡ c.disk p) × (is_success a ≡ false)
  LoopKept c (inr c') = c'.disk p ≡ c.disk p

  LoopKept-trans :
      (c next : Client) (r : (Attempt × Client) ⊎ Client)
      → next.disk p ≡ c.disk p
      → LoopKept next r
      → LoopKept c r
  LoopKept-trans c next (inl (a, c')) e g = (g.0 ∙ e, g.1)
  LoopKept-trans c next (inr c') e g = g ∙ e

  round_cases :
      (rounds : ℕ) (rs : List Round) (c : Client) (n : Next)
      → Kept c n
      → ((received : ℕ) (next : Client) → LoopKept next (receive_loop u rounds rs received next))
      → LoopKept c (elim n [
        | ends a c' ↦ inl (a, c')
        | complete c' ↦ inr c'
        | goes_on m c' ↦ receive_loop u rounds rs m c'
      ])
  round_cases rounds rs c (ends a c') g later = g
  round_cases rounds rs c (complete c') g later = g
  round_cases rounds rs c (goes_on m c') g later =
      LoopKept-trans c c' (receive_loop u rounds rs m c') g (later m c')

  pub receive_loop-LoopKept :
      (rounds : ℕ) (rs : List Round) (received : ℕ) (c : Client)
      → LoopKept c (receive_loop u rounds rs received c)
  unfolding receive_loop save_interrupted_download
  receive_loop-LoopKept rounds [] received c =
      (save_interrupted_download-elsewhere received paused c, refl)
  receive_loop-LoopKept rounds (r ∷ rs) received c =
      round_cases rounds rs c (round_of u rounds r received c) (round_of-Kept rounds r received c)
        (receive_loop-LoopKept rounds rs)
