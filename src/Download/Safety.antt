-- ===== src/Download/Safety.antt =====
-- What `receive_update` leaves, whatever happens on the way.
use distributed_software_upd.Prelude.{
  Option, ℕ, ◌≤◌, ◌≡◌, refl, sym, subst, inl, inr, true, false, ◌&&◌, some, List, [], CString, ltb,
  if◌then◌else◌, length, str_eq, Bool-cases,
}
use distributed_software_upd.VersionTable.{get_current_version, rows_of, max_rows, text_found}
use distributed_software_upd.VersionTable.Rows.{IsId, IsVersion}
use distributed_software_upd.VersionTable.Laws.{IsEnded, Writes, write_version_file-Writes}
use distributed_software_upd.Download.{Client, Update, resume_path}
use distributed_software_upd.Download.Receive.{
  Settings, Events, offered, parse_meta, final_path_of, update_of, receive_update,
}
use distributed_software_upd.Download.Elsewhere.{is_success}
use distributed_software_upd.Download.Checksum.{ReadsFile, HasSha}
use distributed_software_upd.Download.Install.{Outcome, download-Outcome}

-- The version table is none of the files of the download.
pub record IsApart (s : Settings) (u : Update) (final : CString) : Type 0 where
  pub other_final : str_eq s.version_file final ≡ false
  pub other_part : str_eq s.version_file u.part_path ≡ false
  pub other_resume : str_eq s.version_file (resume_path u) ≡ false

module _ (s : Settings) (e : Events) (meta latest sha : CString)
    (parsed : parse_meta meta ≡ some (latest, sha)) where
  abbrev pub installed_path : CString
  installed_path = final_path_of s latest

  abbrev pub update : Update
  update = update_of e meta installed_path latest sha

  offered-Outcome :
      (c : Client)
      → IsApart s update installed_path
      → ReadsFile e.reads
      → Outcome s e.table update installed_path c.disk (offered s e meta c (some (latest, sha)))
  unfolding offered
  offered-Outcome c apart reads =
      elim (Bool-cases (ltb (length installed_path) 512 && ltb (length update.part_path) 512)) [
        | inr h ↦ rw (h, if◌then◌else◌) (inl (refl, refl))
        | inl h ↦
            rw (h, if◌then◌else◌)
              (download-Outcome s e update installed_path
                (record {
                  part = refl;
                  table-final = apart.other_final;
                  table-part = apart.other_part;
                  table-resume = apart.other_resume;
                })
                c reads)
      ]

  -- Whatever the server sends, and whatever fails or is paused on the way, the installed file is as
  -- it was and the attempt did not succeed, or the file's bytes have the SHA-256 that UPDATE_AVAILABLE
  -- named. An attempt that succeeds has written the version table, removed the part and what was
  -- kept to resume, and cleared the flag. The version table is none of the files of the download, and
  -- a file that is read without an error is read whole.
  pub receive_update-Outcome :
      (c : Client)
      → IsApart s update installed_path
      → ReadsFile e.reads
      → Outcome s e.table update installed_path c.disk (receive_update s e meta c)
  unfolding receive_update
  receive_update-Outcome c apart reads =
      subst (λ o. Outcome s e.table update installed_path c.disk (offered s e meta c o))
        (sym parsed) (offered-Outcome c apart reads)

  -- The text that is read of the version table when it is written.
  abbrev pub table_found : Client → Option CString
  table_found c = text_found e.table.reading (c.disk s.version_file)

  -- What a client finds after an update.
  abbrev pub Updated : CString → Client → Client → Type 0
  Updated sum c c' =
      ((bytes : List ℕ) × (c'.disk installed_path ≡ some bytes) × HasSha sum bytes)
      × (get_current_version [] s.client_id true (c'.disk s.version_file) ≡ some latest)
      × ((who : CString)
          → str_eq s.client_id who ≡ false
          → get_current_version [] who true (c'.disk s.version_file)
            ≡ get_current_version [] who true (table_found c))

  -- Where `receive_update` returns ATTEMPT_SUCCESS, the installed file has the checksum that the server
  -- named, the client's version in the table is the one that the server named, and the other
  -- clients have the versions that the text found of the table gave them: those they had, where the
  -- table was opened and read to its end. The text found has 512 lines at most, the last one ended; the
  -- table is none of the files of the download, a file that is read without an error is read whole, and
  -- the client's id and the version can stand in a row.
  pub receive_update-Updated :
      (c : Client)
      → IsApart s update installed_path
      → ReadsFile e.reads
      → IsId s.client_id
      → IsVersion latest
      → IsEnded (table_found c)
      → length (rows_of (table_found c)) ≤ max_rows
      → let (a, c') = receive_update s e meta c in is_success a ≡ true → Updated sha c c'
  receive_update-Updated c apart reads i v ended room h =
      elim (receive_update-Outcome c apart reads) [
        | inl (_, f) ↦ absurd (cc)
        | inr (bytes, p, q, done) ↦
            let w =
              write_version_file-Writes s.client_id latest i v e.table s.version_file
                (c.disk s.version_file) ended room in
            let (mine, others) =
              subst (Writes s.client_id latest i v (table_found c) ended (c.disk s.version_file))
                (done h).written w in
            ((bytes, p, q), mine, others)
      ]
