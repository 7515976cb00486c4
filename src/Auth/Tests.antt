-- ===== src/Auth/Tests.antt =====
-- Registries at concrete inputs.
use distributed_software_upd.Prelude.{
  ◌≡◌, refl, ◌⊎◌, ◌↔◌, some, CString, codes, true, cut_line, strip_leading, strip_trailing,
  split_at, str_eq, str_case_eq, read_lines, fgets, trim_text, has_byte,
}
use distributed_software_upd.Auth.{
  disabled, invalid_registry, auth_client_status, auth_client_registered, scan, read_line,
  split_state, refuses_id, member, valid_registry_state, found,
}
use distributed_software_upd.Auth.Registry.{Registry, IsRegistry, entries_of, lookup, answer}
use distributed_software_upd.Auth.Laws.{auth_client_status_lem}
use distributed_software_upd.Auth.Enabled.{Enables, auth_client_registered_iff}

abbrev registry : CString
registry = codes "# ids\nalice\nbob : Disabled\r\n\ncarol=1"

alice_registered : auth_client_registered (some registry) (codes "alice") ≡ true
unfolding auth_client_registered auth_client_status scan read_line split_state refuses_id member
    valid_registry_state found cut_line strip_leading strip_trailing split_at str_eq str_case_eq
    read_lines fgets trim_text has_byte
alice_registered = refl

bob_disabled : auth_client_status (some registry) (codes "bob") ≡ disabled
unfolding auth_client_status scan read_line split_state refuses_id member valid_registry_state found
    cut_line strip_leading strip_trailing split_at str_eq str_case_eq read_lines fgets trim_text
    has_byte
bob_disabled = refl

twice_invalid : auth_client_status (some (codes "a\nb\na:0\n")) (codes "b") ≡ invalid_registry
unfolding auth_client_status scan read_line split_state refuses_id member valid_registry_state found
    cut_line strip_leading strip_trailing split_at str_eq str_case_eq read_lines fgets trim_text
    has_byte
twice_invalid = refl

auth_client_status_lem_example :
    ((auth_client_status (some registry) (codes "bob") ≡ invalid_registry)
      × ((es : Registry) → entries_of (read_lines 255 registry) ≡ some es → ¬ IsRegistry es))
    ⊎ ((es : Registry) × (entries_of (read_lines 255 registry) ≡ some es)
        × IsRegistry es
        × (auth_client_status (some registry) (codes "bob") ≡ answer (lookup (codes "bob") es)))
auth_client_status_lem_example = auth_client_status_lem registry (codes "bob") refl

auth_client_registered_iff_example :
    (auth_client_registered (some registry) (codes "alice") ≡ true) ↔ (
      (es : Registry) × (entries_of (read_lines 255 registry) ≡ some es)
      × IsRegistry es
      × Enables (codes "alice") (read_lines 255 registry))
auth_client_registered_iff_example = auth_client_registered_iff registry (codes "alice")
