-- ===== src/VersionManager.antt =====
-- Project_3/Project_3/src/server/version_manager.c: the manifest of the release that the server
-- offers. Each function is one critical section under the lock; the log lines are left out.
pub mod Laws
mod Tests
use distributed_software_upd.Prelude.{
  ℕ, ◌*◌, Bool, true, false, ◌&&◌, ◌||◌, not, Option, none, some, List, [], ◌∷◌, CString, codes,
  ◌==◌, if◌then◌else◌, length, str_case_eq, is_empty, copy_str, ◌>>=◌,
}
use distributed_software_upd.Config.{Cfg, File, cfg_load, cfg_get, cfg_copy_str}
use distributed_software_upd.Version.{ver_is_valid}
use distributed_software_upd.Sha256.{Reads, sha256_file_hex}
use distributed_software_upd.Sha256.Hex.{hex_to_bytes}
use distributed_software_upd.Package.{pkg_resolve_path, pkg_file_size}

-- `version_manifest_t`
pub record Manifest : Type 0 where
  pub latest_version : CString
  pub package_file : CString
  pub checksum_sha256 : CString
  pub min_supported : CString
  pub release_notes : CString
  pub package_size : ℕ

-- `version_manager_t`, without its lock.
pub record VersionManager : Type 0 where
  pub manifest : Manifest
  pub manifest_path : CString
  pub package_dir : CString

-- What the calls on files find at a path during one reload.
pub record Files : Type 0 where
  pub open_text : CString → Option File
  pub stat : CString → Option (Bool × ℕ)
  pub open_bytes : CString → Option Reads

abbrev pub is_some : Option (List ℕ) → Bool
is_some none = false
is_some (some _) = true

unfoldable pub hex64_ok : CString → Bool
hex64_ok s = (length s == 64) && is_some (hex_to_bytes s 32)

abbrev text_or_empty : Option CString → CString
text_or_empty none = []
text_or_empty (some s) = s

-- The configured checksum, where there is one, must be the computed one.
unfoldable pub checksum_ok : CString → CString → Bool
unfolding hex64_ok
checksum_ok configured computed =
    is_empty configured || (hex64_ok configured && str_case_eq configured computed)

abbrev pub fields_of : Cfg → Manifest
fields_of cfg = record {
  latest_version = cfg_copy_str cfg (codes "LATEST_VERSION") [] 32;
  package_file = cfg_copy_str cfg (codes "PACKAGE_FILE") [] 256;
  checksum_sha256 = [];
  min_supported = cfg_copy_str cfg (codes "MIN_SUPPORTED") (codes "0.0.0") 32;
  release_notes = cfg_copy_str cfg (codes "RELEASE_NOTES") [] 256;
  package_size = 0;
}

abbrev pub fields_ok : Manifest → Bool
fields_ok m =
    ver_is_valid m.latest_version && ver_is_valid m.min_supported && not (is_empty m.package_file)

abbrev pub configured_checksum : Cfg → CString
configured_checksum cfg = text_or_empty (cfg_get cfg (codes "CHECKSUM_SHA256") (some []))

unfoldable pub accept : Manifest → CString → ℕ → CString → Option Manifest
unfolding checksum_ok
accept next configured size computed =
    if checksum_ok configured computed
    then some (record next { package_size = size; checksum_sha256 = copy_str 65 computed })
    else none

unfoldable pub with_package : Files → CString → Manifest → CString → Option Manifest
unfolding accept
with_package files dir next configured = do
  path ← pkg_resolve_path dir next.package_file 512
  size ← pkg_file_size (files.stat path)
  computed ← sha256_file_hex (files.open_bytes path)
  accept next configured size computed

-- The manifest that a reload makes of a configuration; `none` is each return of -1.
unfoldable pub next_manifest : Files → CString → Cfg → Option Manifest
unfolding with_package
next_manifest files dir cfg =
    if fields_ok (fields_of cfg)
    then with_package files dir (fields_of cfg) (configured_checksum cfg)
    else none

abbrev pub read_manifest : Files → VersionManager → Option Manifest
read_manifest files vm = do
  cfg ← cfg_load (files.open_text vm.manifest_path)
  next_manifest files vm.package_dir cfg

-- The flag is `true` for the return of 0. A reload that fails leaves the manager as it is.
unfoldable pub vm_reload : Files → VersionManager → Bool × VersionManager
unfolding next_manifest
vm_reload files vm = elim (read_manifest files vm) [
  | none ↦ (false, vm)
  | some next ↦ (true, record vm { manifest = next })
]

abbrev pub no_manifest : Manifest
no_manifest = record {
  latest_version = [];
  package_file = [];
  checksum_sha256 = [];
  min_supported = [];
  release_notes = [];
  package_size = 0;
}

unfoldable pub vm_init : Files → CString → CString → Bool × VersionManager
unfolding vm_reload
vm_init files manifest_path package_dir = vm_reload files (record {
  manifest = no_manifest;
  manifest_path = copy_str 256 manifest_path;
  package_dir = copy_str 256 package_dir;
})

abbrev pub vm_get_snapshot : VersionManager → Manifest
vm_get_snapshot vm = vm.manifest
