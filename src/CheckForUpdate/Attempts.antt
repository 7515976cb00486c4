-- ===== src/CheckForUpdate/Attempts.antt =====
-- What an attempt may do, and when.
use distributed_software_upd.Prelude.{
  ◌≡◌, refl, ap, ◌∙◌, ◌⊎◌, inl, inr, Bool, true, false, ◌&&◌, not, Option, none, some, CString,
  codes, ◌++◌, if◌then◌else◌, Bool-cases, Option-cases,
}
use distributed_software_upd.Net.{Conn}
use distributed_software_upd.Protocol.{
  MsgType, msg_hello, msg_auth, msg_auth_ok, msg_version_req, msg_uptodate, msg_update_available,
  msg_error, is_type,
}
use distributed_software_upd.Session.{expect}
use distributed_software_upd.Download.{Attempt, retry, fatal, paused, Client, with_conn}
use distributed_software_upd.Download.Receive.{Settings, receive_update}
use distributed_software_upd.Download.Resumes.{is_resume}
use distributed_software_upd.CheckForUpdate.{
  Peer, give_up, recv_reply, await_reply, ask, rest_after, up_to_date, on_version, on_auth,
  on_hello, on_open, run_attempt,
}

await_reply-disk : (r : Bool × Client) → (await_reply r).1.disk ≡ r.1.disk
unfolding recv_reply
await_reply-disk (false, c) = refl
await_reply-disk (true, c) = refl

ask-disk : (c : Client) (type : MsgType) (text : CString) → (ask c type text).1.disk ≡ c.disk
unfolding ask
ask-disk c type text = await_reply-disk (with_conn c _)

-- The messages of a server that was heard, on a connection: its greeting and its answers to AUTH and to VERSION_REQ.
abbrev pub greeted : Bool → Client → Conn → Option (MsgType × CString) × Client
greeted enable_tls c conn = recv_reply (record c { conn = record conn { ssl = enable_tls } })

abbrev pub admitted : Settings → Client → Option (MsgType × CString) × Client
admitted s c = ask c msg_auth (codes "id=" ++ s.client_id)

abbrev pub answered : CString → Client → Option (MsgType × CString) × Client
answered current c = ask c msg_version_req (codes "cur=" ++ current)

-- The server greeted, admitted the client and offered an update, and the attempt went as the
-- download of what it offered.
pub record IsOffered (s : Settings) (enable_tls : Bool) (p : Peer) (current : CString) (c : Client)
    : Type 0 where
  pub conn : Conn
  pub opened : p.opened ≡ some conn
  pub secured : (enable_tls && not p.secures) ≡ false
  pub greeting : CString
  pub greets : expect msg_hello (greeted enable_tls c conn).0 ≡ some greeting
  pub admission : CString
  pub admits : expect msg_auth_ok (admitted s (greeted enable_tls c conn).1).0 ≡ some admission
  pub meta : CString
  pub offers :
      expect msg_update_available (answered current (admitted s (greeted enable_tls c conn).1).1).0
      ≡ some meta
  pub downloads :
      run_attempt s enable_tls p current c
      ≡ rest_after p (
          receive_update s p.events meta
            (answered current (admitted s (greeted enable_tls c conn).1).1).1)
  pub unchanged : (answered current (admitted s (greeted enable_tls c conn).1).1).1.disk ≡ c.disk

-- No file was touched, and the attempt does not ask for an immediate reconnection.
abbrev pub IsCalm : Client → Attempt × Client → Type 0
IsCalm c (a, c') = (c'.disk ≡ c.disk) × (is_resume a ≡ false)

give_up-IsCalm : (p : Peer) (c : Client) → IsCalm c (give_up p c)
give_up-IsCalm p c = elim (Bool-cases p.stop_failed) [
  | inl t ↦ rw (t, if◌then◌else◌) (refl, refl)
  | inr t ↦ elim (Bool-cases c.resume_retry_active) [
    | inl v ↦ simp (t, if◌then◌else◌, v) (refl, refl)
    | inr v ↦ simp (t, if◌then◌else◌, v) (refl, refl)
  ]
]

refused-IsCalm : (c : Client) (b : Bool) → IsCalm c (if b then fatal else retry, c)
refused-IsCalm c true = (refl, refl)
refused-IsCalm c false = (refl, refl)

up_to_date-IsCalm : (p : Peer) (c : Client) → IsCalm c (up_to_date p c)
unfolding recv_reply
up_to_date-IsCalm p c = elim (Bool-cases p.stop_after) [
  | inl t ↦ rw (t, if◌then◌else◌) (refl, refl)
  | inr t ↦ rw (t, if◌then◌else◌) (refl, refl)
]

on_version-cases :
    (s : Settings) (p : Peer) (g : Option (MsgType × CString)) (c : Client)
    → IsCalm c (on_version s p (g, c))
      ⊎ ((meta : CString) × (expect msg_update_available g ≡ some meta)
          × (on_version s p (g, c) ≡ rest_after p (receive_update s p.events meta c)))
on_version-cases s p none c = inl (give_up-IsCalm p c)
on_version-cases s p (some (type, payload)) c = elim (Bool-cases (is_type type msg_uptodate)) [
  | inl t ↦ inl (rw (t, if◌then◌else◌) (up_to_date-IsCalm p c))
  | inr t ↦ elim (Bool-cases (is_type type msg_update_available)) [
    | inl v ↦ inr (payload, rw (v, if◌then◌else◌) refl, rw (t, if◌then◌else◌, v) refl)
    | inr v ↦ elim (Bool-cases (is_type type msg_error)) [
      | inl w ↦ inl (rw (t, if◌then◌else◌, v, w) (refused-IsCalm c _))
      | inr w ↦ inl (rw (t, if◌then◌else◌, v, w) (give_up-IsCalm p c))
    ]
  ]
]

on_auth-cases :
    (s : Settings) (p : Peer) (current : CString) (g : Option (MsgType × CString)) (c : Client)
    → IsCalm c (on_auth s p current (g, c))
      ⊎ ((admission : CString) × (expect msg_auth_ok g ≡ some admission)
          × (on_auth s p current (g, c) ≡ on_version s p (answered current c)))
on_auth-cases s p current none c = inl (give_up-IsCalm p c)
on_auth-cases s p current (some (type, payload)) c = elim (Bool-cases (is_type type msg_error)) [
  | inl t ↦ inl (rw (t, if◌then◌else◌) (refused-IsCalm c _))
  | inr t ↦ elim (Bool-cases (is_type type msg_auth_ok)) [
    | inl v ↦ inr (payload, rw (v, if◌then◌else◌) refl, rw (t, if◌then◌else◌, v) refl)
    | inr v ↦ inl (rw (t, if◌then◌else◌, v) (give_up-IsCalm p c))
  ]
]

on_hello-cases :
    (s : Settings) (p : Peer) (current : CString) (g : Option (MsgType × CString)) (c : Client)
    → IsCalm c (on_hello s p current (g, c))
      ⊎ ((greeting : CString) × (expect msg_hello g ≡ some greeting)
          × (on_hello s p current (g, c) ≡ on_auth s p current (admitted s c)))
on_hello-cases s p current g c = elim (Option-cases (expect msg_hello g)) [
  | inl n ↦ inl (rw (n, on_hello) (give_up-IsCalm p c))
  | inr (text, n) ↦ inr (text, n, rw (n, on_hello) refl)
]

IsCalm-at :
    (c c1 : Client) (r r1 : Attempt × Client)
    → c1.disk ≡ c.disk
    → r ≡ r1
    → IsCalm c1 r1
    → IsCalm c r
IsCalm-at c c1 r r1 d e h = (ap (λ x. x.1.disk) e ∙ h.0 ∙ d, ap (λ x. is_resume x.0) e ∙ h.1)

module _ (s : Settings) (enable_tls : Bool) (p : Peer) (current : CString) (c : Client) where
  talked :
      (conn : Conn)
      → p.opened ≡ some conn
      → (enable_tls && not p.secures) ≡ false
      → run_attempt s enable_tls p current c ≡ on_hello s p current (greeted enable_tls c conn)
      → IsCalm c (run_attempt s enable_tls p current c) ⊎ IsOffered s enable_tls p current c
  unfolding recv_reply
  talked conn o z e =
      let g = greeted enable_tls c conn in
      elim (on_hello-cases s p current g.0 g.1) [
        | inl calm ↦ inl (IsCalm-at c g.1 _ _ refl e calm)
        | inr (greeting, q, e1) ↦
            let a = admitted s g.1 in
            let d1 : a.1.disk ≡ c.disk = ask-disk g.1 msg_auth (codes "id=" ++ s.client_id) in
            elim (on_auth-cases s p current a.0 a.1) [
              | inl calm ↦ inl (IsCalm-at c a.1 _ _ d1 (e ∙ e1) calm)
              | inr (admission, q1, e2) ↦
                  let v = answered current a.1 in
                  let d2 : v.1.disk ≡ c.disk =
                    ask-disk a.1 msg_version_req (codes "cur=" ++ current) ∙ d1 in
                  elim (on_version-cases s p v.0 v.1) [
                    | inl calm ↦ inl (IsCalm-at c v.1 _ _ d2 (e ∙ e1 ∙ e2) calm)
                    | inr (meta, q2, e3) ↦ inr (record {
                      conn = conn;
                      opened = o;
                      secured = z;
                      greeting = greeting;
                      greets = q;
                      admission = admission;
                      admits = q1;
                      meta = meta;
                      offers = q2;
                      downloads = e ∙ e1 ∙ e2 ∙ e3;
                      unchanged = d2;
                    })
                  ]
            ]
      ]

  -- An attempt touches no file and does not ask for an immediate reconnection, unless the connection
  -- is there, with TLS where the configuration wants it, and the server greeted with HELLO, answered AUTH
  -- with AUTH_OK and the version with UPDATE_AVAILABLE; and then it goes as the download of what was
  -- offered, from the files as they were.
  pub run_attempt-cases :
      IsCalm c (run_attempt s enable_tls p current c) ⊎ IsOffered s enable_tls p current c
  unfolding run_attempt
  run_attempt-cases = elim (Option-cases p.opened) [
    | inl n ↦
        inl (IsCalm-at c c _ _ refl (ap (on_open s enable_tls p current c) n) (give_up-IsCalm p c))
    | inr (conn, n) ↦
        let c1 : Client = record c { conn = record conn { ssl = enable_tls } } in
        let e = ap (on_open s enable_tls p current c) n in
        elim (Bool-cases p.stop_connected) [
          | inl t ↦
              inl
                (IsCalm-at c c1 _ (paused, c1) refl (e ∙ simp (t, if◌then◌else◌) refl) (refl, refl))
          | inr t ↦ elim (Bool-cases (enable_tls && not p.secures)) [
            | inl z ↦ inl (
                IsCalm-at c c1 _ (give_up p c1) refl (e ∙ simp (t, if◌then◌else◌, z) refl)
                  (give_up-IsCalm p c1))
            | inr z ↦ talked conn n z (e ∙ simp (t, if◌then◌else◌, z) refl)
          ]
        ]
  ]
