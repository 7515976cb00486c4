-- ===== src/VersionManager/Laws.antt =====
-- Only a manifest that was checked is offered.
use distributed_software_upd.Prelude.{
  ◌≡◌, refl, subst, ◌⊎◌, inl, inr, Bool, true, false, ◌≢◌, Option, none, some, List, [], ℕ, ◌∷◌,
  CString, codes, copy_str, arith, Bool-cases, length, str_case_eq, is_empty, Option-cases,
  >>=-eq-some,
}
use distributed_software_upd.Config.{Cfg, cfg_load, find_entry, cfg_get, cfg_copy_str}
use distributed_software_upd.Version.{ver_is_valid}
use distributed_software_upd.Sha256.{sha256_file_hex}
use distributed_software_upd.Sha256.Hex.{hex_to_bytes}
use distributed_software_upd.Package.{pkg_resolve_path, pkg_file_size}
use distributed_software_upd.VersionManager.{
  Manifest, VersionManager, Files, hex64_ok, is_some, checksum_ok, configured_checksum, fields_of,
  fields_ok, with_package, accept, next_manifest, read_manifest, vm_reload,
}

-- The computed checksum is the one of the configuration: 64 hexadecimal digits that are the same but
-- for the case of letters, or an empty text or no entry.
abbrev pub IsConfirmed : Cfg → CString → Type 0
IsConfirmed cfg computed =
    (c : CString) × (cfg_get cfg (codes "CHECKSUM_SHA256") (some []) ≡ some c)
    × ((c ≡ [])
        ⊎ ((length c ≡ 64)
            × ((bytes : List ℕ) × (hex_to_bytes c 32 ≡ some bytes))
            × (str_case_eq c computed ≡ true)))

-- The manifest is made of the configuration and is good: its versions are valid, and its package is a
-- regular file in the directory, of its size, with its checksum, which agrees with the configuration.
pub record IsGood (files : Files) (dir : CString) (cfg : Cfg) (m : Manifest) : Type 0 where
  pub latest_of : m.latest_version ≡ cfg_copy_str cfg (codes "LATEST_VERSION") [] 32
  pub oldest_of : m.min_supported ≡ cfg_copy_str cfg (codes "MIN_SUPPORTED") (codes "0.0.0") 32
  pub file_of : m.package_file ≡ cfg_copy_str cfg (codes "PACKAGE_FILE") [] 256
  pub notes_of : m.release_notes ≡ cfg_copy_str cfg (codes "RELEASE_NOTES") [] 256
  pub latest : ver_is_valid m.latest_version ≡ true
  pub oldest : ver_is_valid m.min_supported ≡ true
  pub named : m.package_file ≢ []
  pub path : CString
  pub resolved : pkg_resolve_path dir m.package_file 512 ≡ some path
  pub sized : pkg_file_size (files.stat path) ≡ some m.package_size
  pub computed : CString
  pub read : sha256_file_hex (files.open_bytes path) ≡ some computed
  pub stored : m.checksum_sha256 ≡ copy_str 65 computed
  pub agreed : IsConfirmed cfg computed

is_some-cases : (o : Option (List ℕ)) → is_some o ≡ true → (bytes : List ℕ) × (o ≡ some bytes)
is_some-cases none h = cc
is_some-cases (some bytes) h = (bytes, refl)

is_empty-nil : (s : CString) → is_empty s ≡ true → s ≡ []
is_empty-nil [] h = refl
is_empty-nil (c ∷ s) h = cc

nonempty : (s : CString) → is_empty s ≡ false → s ≢ []
nonempty [] h e = cc
nonempty (c ∷ s) h e = cc

-- What `checksum_ok` has checked.
checksum_ok-agrees :
    (configured computed : CString)
    → checksum_ok configured computed ≡ true
    → (configured ≡ [])
      ⊎ ((length configured ≡ 64)
          × ((bytes : List ℕ) × (hex_to_bytes configured 32 ≡ some bytes))
          × (str_case_eq configured computed ≡ true))
unfolding checksum_ok hex64_ok
checksum_ok-agrees configured computed h = elim (Bool-cases (is_empty configured)) [
  | inl e ↦ inl (is_empty-nil configured e)
  | inr e ↦
      inr (ground arith, is_some-cases (hex_to_bytes configured 32) (ground arith), ground arith)
]

cfg_get_or : (cfg : Cfg) (key d : CString) → cfg_get cfg key (some d) ≢ none
unfolding cfg_get
cfg_get_or cfg key d h = elim (Option-cases (find_entry key cfg)) [
  | inl n ↦ absurd (cc (rw (n, cfg_get) at h))
  | inr (v, n) ↦ absurd (cc (rw (n, cfg_get) at h))
]

checksum_ok-IsConfirmed :
    (cfg : Cfg) (computed : CString)
    → checksum_ok (configured_checksum cfg) computed ≡ true
    → IsConfirmed cfg computed
checksum_ok-IsConfirmed cfg computed h =
    elim (Option-cases (cfg_get cfg (codes "CHECKSUM_SHA256") (some []))) [
      | inl n ↦ absurd (cfg_get_or cfg (codes "CHECKSUM_SHA256") [] n)
      | inr (c, n) ↦ (c, n, checksum_ok-agrees c computed (rw n at h))
    ]

with_package-IsGood :
    (files : Files) (dir : CString) (cfg : Cfg) {m : Manifest}
    → fields_ok (fields_of cfg) ≡ true
    → with_package files dir (fields_of cfg) (configured_checksum cfg) ≡ some m
    → IsGood files dir cfg m
unfolding with_package accept
with_package-IsGood files dir cfg {m} f h =
    let next = fields_of cfg in
    let (path, p, h1) = >>=-eq-some (pkg_resolve_path dir next.package_file 512) _ h in
    let (size, q, h2) = >>=-eq-some (pkg_file_size (files.stat path)) _ h1 in
    let (computed, r, h3) = >>=-eq-some (sha256_file_hex (files.open_bytes path)) _ h2 in
    elim (Bool-cases (checksum_ok (configured_checksum cfg) computed)) [
      | inl t ↦
          let e : record next { package_size = size; checksum_sha256 = copy_str 65 computed } ≡ m =
            ground arith in
          subst (λ n. IsGood files dir cfg n) e
            (record {
              latest_of = refl;
              oldest_of = refl;
              file_of = refl;
              notes_of = refl;
              latest = ground arith;
              oldest = ground arith;
              named = nonempty next.package_file (ground arith);
              path = path;
              resolved = p;
              sized = q;
              computed = computed;
              read = r;
              stored = refl;
              agreed = checksum_ok-IsConfirmed cfg computed t;
            })
      | inr t ↦ absurd (ground arith)
    ]

next_manifest-IsGood :
    (files : Files) (dir : CString) (cfg : Cfg) {m : Manifest}
    → next_manifest files dir cfg ≡ some m
    → IsGood files dir cfg m
unfolding next_manifest
next_manifest-IsGood files dir cfg {m} h = elim (Bool-cases (fields_ok (fields_of cfg))) [
  | inl t ↦ with_package-IsGood files dir cfg t (ground arith)
  | inr t ↦ absurd (ground arith)
]

-- What a reload leaves: it fails and changes nothing, or it succeeds and puts a good manifest of the
-- configuration in place, and nothing else.
abbrev pub Reloads : Files → VersionManager → Bool × VersionManager → Type 0
Reloads files vm (ok, vm') =
    ((ok ≡ false) × (vm' ≡ vm))
    ⊎ ((ok ≡ true)
        × ((cfg : Cfg) × (cfg_load (files.open_text vm.manifest_path) ≡ some cfg)
            × IsGood files vm.package_dir cfg vm'.manifest)
        × (vm' ≡ record vm { manifest = vm'.manifest }))

-- A reload that succeeds puts a manifest in place that is made of the configuration at the manifest's
-- path: its version, oldest version, file and notes are the configured ones, the versions are valid,
-- and the package is a file in the directory with the manifest's size and checksum. Where a
-- checksum is configured, it is 64 hexadecimal digits and the computed one but for the case of
-- letters. A reload that fails changes nothing.
pub vm_reload_lem : (files : Files) (vm : VersionManager) → Reloads files vm (vm_reload files vm)
unfolding vm_reload
vm_reload_lem files vm = elim (Option-cases (read_manifest files vm)) [
  | inl n ↦ rw (n, vm_reload) (inl (refl, refl))
  | inr (m, n) ↦
      let (cfg, p, q) = >>=-eq-some (cfg_load (files.open_text vm.manifest_path)) _ n in
      rw (n, vm_reload)
        (inr (refl, (cfg, p, next_manifest-IsGood files vm.package_dir cfg q), refl))
]
