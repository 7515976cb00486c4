-- ===== src/Download/Checksum.antt =====
-- What a part holds whose checksum was found right.
use distributed_software_upd.Prelude.{
  ℕ, ◌≡◌, refl, ap, ◌∙◌, inl, inr, true, false, Option, none, some, List, CString, if◌then◌else◌,
  str_case_eq, Bool-cases, Option-cases,
}
use distributed_software_upd.Sha256.{Reads, sha256_file_hex, sha256_buffer_hex}
use distributed_software_upd.Sha256.Stream.{IsWhole, content, sha256_file_hex_lem}
use distributed_software_upd.Download.{same_sha}
use distributed_software_upd.Download.Receive.{Events, file_hex}

-- What `fread` gives of a file, where it reports no error, is the file.
abbrev pub ReadsFile : (List ℕ → Option Reads) → Type 0
ReadsFile reads =
    (bytes : List ℕ) (r : Reads)
    → reads bytes ≡ some r
    → r.failed ≡ false
    → IsWhole r.chunks × (content r.chunks ≡ bytes)

-- The bytes have the checksum.
abbrev pub HasSha : CString → List ℕ → Type 0
HasSha sha bytes = str_case_eq (sha256_buffer_hex bytes) sha ≡ true

sha256_file_hex-content :
    (r : Reads) (bytes : List ℕ)
    → r.failed ≡ false
    → IsWhole r.chunks
    → content r.chunks ≡ bytes
    → sha256_file_hex (some r) ≡ some (sha256_buffer_hex bytes)
sha256_file_hex-content r bytes f w e =
    ap (λ b. sha256_file_hex (some (record { chunks = r.chunks; failed = b }))) f
    ∙ sha256_file_hex_lem r.chunks w
    ∙ ap (λ bs. some (sha256_buffer_hex bs)) e

-- A file passes the test only where its content has the checksum.
pub same_sha-HasSha :
    (e : Events) (sha : CString) (file : Option (List ℕ))
    → ReadsFile e.reads
    → same_sha sha (file_hex e file) ≡ true
    → (bytes : List ℕ) × (file ≡ some bytes) × HasSha sha bytes
unfolding sha256_file_hex
same_sha-HasSha e sha none f h = absurd (cc)
same_sha-HasSha e sha (some bytes) f h = elim (Option-cases (e.reads bytes)) [
  | inl n ↦ absurd (cc (rw (n, sha256_file_hex) at h))
  | inr (r, n) ↦ elim (Bool-cases r.failed) [
    | inl t ↦ absurd (cc (rw (n, sha256_file_hex, t, if◌then◌else◌) at h))
    | inr t ↦
        let (w, same) = f bytes r n t in
        (bytes, refl, rw (n, sha256_file_hex-content r bytes t w same) at h)
  ]
]
