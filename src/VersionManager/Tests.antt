-- ===== src/VersionManager/Tests.antt =====
-- Manifests at concrete inputs.
use distributed_software_upd.Prelude.{
  true, false, none, some, [], ◌∷◌, ◌≡◌, codes, str_eq, if◌then◌else◌, refl, replicate, str_case_eq,
}
use distributed_software_upd.VersionManager.{
  VersionManager, Files, no_manifest, vm_reload, hex64_ok, checksum_ok,
}
use distributed_software_upd.Sha256.Hex.{hex_to_bytes, hex_loop}
use distributed_software_upd.VersionManager.Laws.{Reloads, vm_reload_lem}

abbrev files : Files
files = record {
  open_text = λ path.
      if str_eq path (codes "m")
      then some (record { text = codes "LATEST_VERSION=1.2.0\nPACKAGE_FILE=app"; failed = false })
      else none;
  stat = λ path. if str_eq path (codes "d/app") then some (true, 3) else none;
  open_bytes = λ path.
      if str_eq path (codes "d/app")
      then some (record { chunks = codes "abc" ∷ []; failed = false })
      else none;
}

abbrev manager : VersionManager
manager = record { manifest = no_manifest; manifest_path = codes "m"; package_dir = codes "d" }

refuses_short : hex64_ok (codes "abc") ≡ false
unfolding hex64_ok
refuses_short = refl

refuses_other : checksum_ok (replicate 64 b'0') (replicate 64 b'1') ≡ false
unfolding checksum_ok hex64_ok str_case_eq str_eq hex_to_bytes hex_loop
refuses_other = refl

accepts_case : checksum_ok (replicate 64 b'A') (replicate 64 b'a') ≡ true
unfolding checksum_ok hex64_ok str_case_eq str_eq hex_to_bytes hex_loop
accepts_case = refl

vm_reload_lem_example : Reloads files manager (vm_reload files manager)
vm_reload_lem_example = vm_reload_lem files manager
