-- ===== src/Download/Reconnects.antt =====
-- When `receive_update` as a whole returns ATTEMPT_RESUME_RECONNECT.
use distributed_software_upd.Prelude.{
  ℕ, ◌≡◌, refl, ◌⊎◌, inl, inr, Bool, true, false, ◌&&◌, Option, none, some, CString, ltb,
  if◌then◌else◌, length, Bool-cases,
}
use distributed_software_upd.VersionTable.{write_version_file}
use distributed_software_upd.Download.{
  Attempt, set_file, Client, Update, resume_path, save_interrupted_download, same_sha, receive_loop,
}
use distributed_software_upd.Download.Receive.{
  final_path_of, update_of, Settings, Events, file_hex, record_version, report, install, flushed,
  flush_part, open_part, after_loop, after_request, download, offered, parse_meta, receive_update,
}
use distributed_software_upd.Download.Resumes.{
  is_resume, asks_resume, LoopIsOther, receive_loop-IsOther,
}

-- What follows the loop never does.
record_version-is_resume :
    (s : Settings) (e : Events) (u : Update) (c : Client)
    → is_resume (record_version s e u c).0 ≡ false
unfolding record_version
record_version-is_resume s e u c =
    elim (Bool-cases (
      (write_version_file e.table s.version_file s.client_id u.version (c.disk s.version_file)).0
      && ltb (length (resume_path u)) 512)) [
        | inl t ↦ rw (t, if◌then◌else◌) refl
        | inr t ↦ rw (t, if◌then◌else◌) refl
      ]

install-is_resume :
    (s : Settings) (e : Events) (u : Update) (final : CString) (c : Client)
    → is_resume (install s e u final c).0 ≡ false
unfolding install
install-is_resume s e u final c =
    elim (Bool-cases (same_sha u.sha (file_hex e (c.disk u.part_path)))) [
      | inr t ↦ rw (t, if◌then◌else◌) refl
      | inl t ↦ elim (Bool-cases e.renames) [
        | inl k ↦
            simp (t, if◌then◌else◌, k)
              (record_version-is_resume s e u (
                report (record c {
                  disk = set_file final (c.disk u.part_path) (set_file u.part_path none c.disk);
                })))
        | inr k ↦ simp (t, if◌then◌else◌, k) refl
      ]
    ]

flushed-is_resume :
    (s : Settings) (e : Events) (u : Update) (final : CString) (c : Client) (keeps : Option ℕ)
    → is_resume (flushed s e u final c keeps).0 ≡ false
flushed-is_resume s e u final c none = install-is_resume s e u final c
flushed-is_resume s e u final c (some n) = refl

after_loop-is_resume :
    (s : Settings) (e : Events) (u : Update) (final : CString) (r : (Attempt × Client) ⊎ Client)
    → LoopIsOther r
    → is_resume (after_loop s e u final r).0 ≡ false
unfolding flush_part
after_loop-is_resume s e u final (inl (a, c)) h = h
after_loop-is_resume s e u final (inr c) h = flushed-is_resume s e u final c e.flush_keeps

after_request-is_resume :
    (s : Settings) (e : Events) (u : Update) (final : CString) (offset : ℕ) (r : Bool × Client)
    → asks_resume e.rounds ≡ false
    → is_resume (after_request s e u final offset r).0 ≡ false
unfolding after_request save_interrupted_download
after_request-is_resume s e u final offset (false, c) h = elim (Bool-cases e.stop) [
  | inl t ↦ rw (t, if◌then◌else◌) refl
  | inr t ↦ rw (t, if◌then◌else◌) refl
]
after_request-is_resume s e u final offset (true, c) h = elim (Bool-cases e.opens) [
  | inr t ↦ simp (t, if◌then◌else◌) refl
  | inl t ↦ elim (Bool-cases e.allocates) [
    | inr k ↦ simp (t, if◌then◌else◌, k) refl
    | inl k ↦
        simp (t, if◌then◌else◌, k)
          (after_loop-is_resume s e u final
            (receive_loop u e.pause_rounds e.rounds offset (open_part u offset c))
            (receive_loop-IsOther u e.pause_rounds e.rounds offset (open_part u offset c) h))
  ]
]

offered-is_resume :
    (s : Settings) (e : Events) (meta : CString) (c : Client) (o : Option (CString × CString))
    → asks_resume e.rounds ≡ false
    → is_resume (offered s e meta c o).0 ≡ false
unfolding offered download
offered-is_resume s e meta c none h = refl
offered-is_resume s e meta c (some (latest, sha)) h =
    let final = final_path_of s latest in
    let u = update_of e meta final latest sha in
    elim (Bool-cases (ltb (length final) 512 && ltb (length u.part_path) 512)) [
      | inr t ↦ rw (t, if◌then◌else◌) refl
      | inl t ↦ rw (t, if◌then◌else◌) (after_request-is_resume s e u final _ _ h)
    ]

-- A download asks for an immediate reconnection only where somebody asked to go on during a pause.
pub receive_update-is_resume :
    (s : Settings) (e : Events) (meta : CString) (c : Client)
    → asks_resume e.rounds ≡ false
    → is_resume (receive_update s e meta c).0 ≡ false
unfolding receive_update
receive_update-is_resume s e meta c h = offered-is_resume s e meta c (parse_meta meta) h
