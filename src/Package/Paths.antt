-- ===== src/Package/Paths.antt =====
-- A package's path names a file of the package directory itself.
use distributed_software_upd.Prelude.{
  ℕ, ◌<◌, ◌≡◌, refl, inl, inr, true, false, some, [], ◌∷◌, ◌++◌, CString, length, has_byte, arith,
  Bool-cases,
}
use distributed_software_upd.Package.{pkg_resolve_path, has_dots}

-- What stands behind the last slash.
unfoldable pub base_name : CString → CString
base_name [] = []
base_name (c ∷ s) = elim (has_byte b'/' (c ∷ s)) [ true ↦ base_name s | false ↦ c ∷ s ]

has_byte-slash : (dir file : CString) → has_byte b'/' (dir ++ b'/' ∷ file) ≡ true
unfolding has_byte
has_byte-slash [] file = refl
has_byte-slash (c ∷ dir) file = ground (arith, has_byte-slash dir file)

base_name_self : (file : CString) → has_byte b'/' file ≡ false → base_name file ≡ file
unfolding base_name
base_name_self [] h = refl
base_name_self (c ∷ s) h = rw (h, base_name) refl

base_name-append :
    (dir file : CString) → has_byte b'/' file ≡ false → base_name (dir ++ b'/' ∷ file) ≡ file
unfolding base_name
base_name-append [] file h =
    let t = has_byte-slash [] file in rw (t, base_name) (base_name_self file h)
base_name-append (c ∷ dir) file h =
    let t = has_byte-slash (c ∷ dir) file in rw (t, base_name) (base_name-append dir file h)

-- A path that is resolved fits the caller's buffer, and its last component is the package file
-- whole: the file lies in the package directory itself, and no `..` leads out of it.
pub pkg_resolve_path_safe :
    (dir file : CString) (out_len : ℕ) {path : CString}
    → pkg_resolve_path dir file out_len ≡ some path
    → (base_name path ≡ file)
      × (path ≡ dir ++ b'/' ∷ file)
      × (has_dots file ≡ false)
      × (length path < out_len)
unfolding pkg_resolve_path
pkg_resolve_path_safe dir file out_len {path} h = elim (Bool-cases (has_byte b'/' file)) [
  | inl t ↦ absurd (ground arith)
  | inr t ↦
      let e : path ≡ dir ++ b'/' ∷ file = ground arith in
      (rw e (base_name-append dir file t), e, ground arith, ground arith)
]
