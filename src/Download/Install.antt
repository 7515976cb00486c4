-- ===== src/Download/Install.antt =====
-- What a download installs.
use distributed_software_upd.Prelude.{
  ℕ, ◌≡◌, refl, sym, ap, ◌∙◌, ◌⊎◌, inl, inr, Bool, true, false, ◌&&◌, Option, none, some, List,
  ◌++◌, CString, codes, ltb, if◌then◌else◌, length, length-append, str_eq, str_eq_self, arith,
  Bool-cases,
}
use distributed_software_upd.VersionTable.{Calls, write_version_file}
use distributed_software_upd.Download.{
  paused, reconnect, save_interrupted_download, Attempt, Disk, set_file, contents, Client, Update,
  resume_path, same_sha, receive_loop,
}
use distributed_software_upd.Download.Receive.{
  Settings, Events, file_hex, record_version, install, flush_part, report, open_part,
  drop_long_part, flushed, after_loop, after_request, download,
}
use distributed_software_upd.Download.Elsewhere.{
  save_interrupted_download-elsewhere, LoopKept, receive_loop-LoopKept, is_success, other_path,
  longer_path,
}
use distributed_software_upd.Download.Checksum.{ReadsFile, HasSha, same_sha-HasSha}

-- The installed file's paths, and the version table at another.
pub record Paths (s : Settings) (u : Update) (final : CString) : Type 0 where
  pub part : u.part_path ≡ final ++ codes ".part"
  pub table-final : str_eq s.version_file final ≡ false
  pub table-part : str_eq s.version_file u.part_path ≡ false
  pub table-resume : str_eq s.version_file (resume_path u) ≡ false

-- From the files `d`, a client with its version table written, and nothing left of the part.
pub record Finished (s : Settings) (calls : Calls) (u : Update) (d : Disk) (c : Client)
    : Type 0 where
  pub written :
      write_version_file calls s.version_file s.client_id u.version (d s.version_file)
      ≡ (true, c.disk s.version_file)
  pub no_part : c.disk u.part_path ≡ none
  pub no_resume : c.disk (resume_path u) ≡ none
  pub calm : c.resume_retry_active ≡ false

-- From the files `d`, the installed file is as it was and the attempt did not succeed, or it holds
-- bytes with the checksum; and success means that all is finished.
abbrev pub Outcome : Settings → Calls → Update → CString → Disk → Attempt × Client → Type 0
Outcome s calls u final d (a, c) =
    ((c.disk final ≡ d final) × (is_success a ≡ false))
    ⊎ ((bytes : List ℕ) × (c.disk final ≡ some bytes)
        × HasSha u.sha bytes
        × (is_success a ≡ true → Finished s calls u d c))

module _ (s : Settings) (e : Events) (u : Update) (final : CString) (paths : Paths s u final) where
  final-part : str_eq final u.part_path ≡ false
  final-part =
      longer_path final u.part_path
        (omega (arith, ap length paths.part, length-append final (codes ".part")))

  final-resume : str_eq final (resume_path u) ≡ false
  final-resume = longer_path final (resume_path u) (
      omega (
        arith,
        ap length paths.part,
        length-append final (codes ".part"),
        length-append u.part_path (codes ".resume"),
      ))

  part-resume : str_eq u.part_path (resume_path u) ≡ false
  part-resume =
      longer_path u.part_path (resume_path u)
        (omega (arith, length-append u.part_path (codes ".resume")))

  part-final : str_eq u.part_path final ≡ false
  part-final = other_path final u.part_path final-part

  record_version-Finished :
      (d : Disk) (c : Client)
      → c.disk s.version_file ≡ d s.version_file
      → c.disk u.part_path ≡ none
      → let (a, c') = record_version s e u c in
        (c'.disk final ≡ c.disk final) × (is_success a ≡ true → Finished s e.table u d c')
  unfolding record_version
  record_version-Finished d c t n =
      elim (Bool-cases (wrote.0 && ltb (length (resume_path u)) 512)) [
        | inr h ↦ rw (h, if◌then◌else◌, final-table) (refl, λ k. absurd (cc))
        | inl h ↦
            let ok : wrote.0 ≡ true = ground arith in
            rw (h, if◌then◌else◌, final-table, final-resume)
              (
                refl,
                λ k. record {
                  written =
                      rw (paths.table-resume, str_eq_self s.version_file, sym t)
                        (λ i. (ok i, wrote.1));
                  no_part = rw (part-resume, part-table) n;
                  no_resume = rw (str_eq_self (resume_path u)) refl;
                  calm = refl;
                },
              )
      ]
    where
      wrote : Bool × Option CString
      wrote =
          write_version_file e.table s.version_file s.client_id u.version (c.disk s.version_file)

      final-table : str_eq final s.version_file ≡ false
      final-table = other_path s.version_file final paths.table-final

      part-table : str_eq u.part_path s.version_file ≡ false
      part-table = other_path s.version_file u.part_path paths.table-part

  -- The installed file and the table are as they were.
  abbrev Untouched : Disk → Client → Type 0
  Untouched d c = (c.disk final ≡ d final) × (c.disk s.version_file ≡ d s.version_file)

  pub install-Outcome :
      (d : Disk) (c : Client)
      → ReadsFile e.reads
      → Untouched d c
      → Outcome s e.table u final d (install s e u final c)
  unfolding install
  install-Outcome d c reads (f, t) =
      elim (Bool-cases (same_sha u.sha (file_hex e (c.disk u.part_path)))) [
        | inr h ↦ rw (h, if◌then◌else◌, final-part) (inl (f, refl))
        | inl h ↦ elim (Bool-cases e.renames) [
          | inr k ↦ rw (h, if◌then◌else◌, k) (inl (f, refl))
          | inl k ↦
              let (bytes, p, q) = same_sha-HasSha e u.sha (c.disk u.part_path) reads h in
              let now =
                record_version-Finished d renamed (rw (paths.table-final, paths.table-part) t)
                  (rw (part-final, str_eq_self u.part_path) refl) in
              rw (h, if◌then◌else◌, k) (inr (bytes, now.0 ∙ rw (str_eq_self final) p, q, now.1))
        ]
      ]
    where
      renamed : Client
      renamed = report (record c {
        disk = set_file final (c.disk u.part_path) (set_file u.part_path none c.disk);
      })

  flush_part-Outcome :
      (d : Disk) (c : Client)
      → ReadsFile e.reads
      → Untouched d c
      → Outcome s e.table u final d (flush_part s e u final c)
  unfolding flush_part
  flush_part-Outcome d c reads w =
      elim e.flush_keeps as (λ keeps. Outcome s e.table u final d (flushed s e u final c keeps)) [
        | none ↦ install-Outcome d c reads w
        | some n ↦ rw final-part (inl (w.0, refl))
      ]

  open_part-Untouched :
      (d : Disk) (offset : ℕ) (c : Client) → Untouched d c → Untouched d (open_part u offset c)
  open_part-Untouched d offset c w = elim (Bool-cases (ltb 0 offset)) [
    | inl h ↦ rw (h, if◌then◌else◌) w
    | inr h ↦ rw (h, if◌then◌else◌, final-part, paths.table-part) w
  ]

  drop_long_part-Untouched : (c : Client) → Untouched c.disk (drop_long_part u c)
  drop_long_part-Untouched c =
      elim (Bool-cases (ltb u.size (length (contents (c.disk u.part_path))))) [
        | inl h ↦ rw (h, if◌then◌else◌, final-part, paths.table-part) (refl, refl)
        | inr h ↦ rw (h, if◌then◌else◌) (refl, refl)
      ]

  after_loop-Outcome :
      (d : Disk) (c : Client) (r : (Attempt × Client) ⊎ Client)
      → ReadsFile e.reads
      → Untouched d c
      → LoopKept u final final-part final-resume c r
      → LoopKept u s.version_file paths.table-part paths.table-resume c r
      → Outcome s e.table u final d (after_loop s e u final r)
  after_loop-Outcome d c (inl (a, c')) reads w k l = inl (k.0 ∙ w.0, k.1)
  after_loop-Outcome d c (inr c') reads w k l = flush_part-Outcome d c' reads (k ∙ w.0, l ∙ w.1)

  after_request-Outcome :
      (d : Disk) (offset : ℕ) (r : Bool × Client)
      → ReadsFile e.reads
      → Untouched d r.1
      → Outcome s e.table u final d (after_request s e u final offset r)
  unfolding after_request save_interrupted_download
  after_request-Outcome d offset (false, c) reads w = elim (Bool-cases e.stop) [
    | inl h ↦
        rw (h, if◌then◌else◌)
          (inl (
            save_interrupted_download-elsewhere u final final-part final-resume offset paused c
                ∙ w.0,
            refl,
          ))
    | inr h ↦
        rw (h, if◌then◌else◌)
          (inl (
            save_interrupted_download-elsewhere u final final-part final-resume offset reconnect c
                ∙ w.0,
            refl,
          ))
  ]
  after_request-Outcome d offset (true, c) reads w = elim (Bool-cases e.opens) [
    | inr h ↦ rw (h, if◌then◌else◌) (inl (w.0, refl))
    | inl h ↦ elim (Bool-cases e.allocates) [
      | inr k ↦ simp (h, k, if◌then◌else◌) (inl ((open_part-Untouched d offset c w).0, refl))
      | inl k ↦
          let opened = open_part u offset c in
          simp (h, k, if◌then◌else◌)
            (after_loop-Outcome d opened (receive_loop u e.pause_rounds e.rounds offset opened)
              reads (open_part-Untouched d offset c w)
              (receive_loop-LoopKept u final final-part final-resume e.pause_rounds e.rounds offset
                opened)
              (receive_loop-LoopKept u s.version_file paths.table-part paths.table-resume
                e.pause_rounds e.rounds offset opened))
    ]
  ]

  pub download-Outcome :
      (c : Client) → ReadsFile e.reads → Outcome s e.table u final c.disk (download s e u final c)
  unfolding download
  download-Outcome c reads = after_request-Outcome c.disk _ _ reads (drop_long_part-Untouched c)
