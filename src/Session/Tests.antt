-- ===== src/Session/Tests.antt =====
-- Sessions at concrete inputs.
use distributed_software_upd.Prelude.{
  ◌≡◌, refl, true, none, some, [], ◌∷◌, codes, pos, inl, cut_line, strip_leading, strip_trailing,
  split_at, str_eq, str_case_eq, read_lines, fgets, trim_text, has_byte,
}
use distributed_software_upd.Net.{moved, conn_read_all, read_loop}
use distributed_software_upd.Protocol.{
  msg_auth, proto_recv, read_frame, get_u32_be, put_u32_be, header,
}
use distributed_software_upd.Protocol.Frames.{frame}
use distributed_software_upd.Protocol.Fields.{kv_get, parts, find_field}
use distributed_software_upd.Stats.{stats_init}
use distributed_software_upd.Auth.{
  auth_client_status, auth_client_registered, scan, read_line, split_state, refuses_id, member,
  valid_registry_state, found,
}
use distributed_software_upd.ActiveIds.{Slots}
use distributed_software_upd.VersionManager.{no_manifest}
use distributed_software_upd.Session.{Env, Talk, recv_control, check_id, authenticate_client}
use distributed_software_upd.Session.Serve.{handle_client_session}
use distributed_software_upd.Session.Laws.{
  IsAdmitted, authenticate_client-IsAdmitted, handle_client_session-slots,
}

abbrev env : Env
env = record {
  chunk_size = 4096;
  package_dir = codes "packages";
  client_info = codes "10.0.0.1:4";
  cert_id = some (codes "alice");
  registry = some (codes "alice\n");
  manifest = no_manifest;
  file_at = λ _. record {
    stat = none;
    opens = true;
    seeks = true;
    allocates = true;
    content = [];
    reads = [];
  };
}

abbrev talk : Talk
talk = record {
  conn = record {
    fd = pos 9;
    ssl = true;
    calls = moved 12 ∷ (moved 8 ∷ []);
    incoming = frame msg_auth 0 (codes "id=alice");
    outgoing = [];
  };
  selects = [];
  stats = stats_init 2;
}

alice_authenticated : (authenticate_client env talk).0 ≡ some (codes "alice")
unfolding authenticate_client check_id recv_control kv_get parts find_field proto_recv read_frame
    get_u32_be put_u32_be header conn_read_all read_loop auth_client_registered auth_client_status
    scan read_line split_state refuses_id member valid_registry_state found cut_line strip_leading
    strip_trailing split_at str_eq str_case_eq read_lines fgets trim_text has_byte
alice_authenticated = refl

authenticate_client-IsAdmitted_example : (talk.conn.ssl ≡ true) × IsAdmitted env (codes "alice")
authenticate_client-IsAdmitted_example = authenticate_client-IsAdmitted env talk alice_authenticated

abbrev two_slots : Slots
two_slots = [] ∷ ([] ∷ [])

handle_client_session-slots_example : (handle_client_session env two_slots talk).1 ≡ two_slots
handle_client_session-slots_example =
    handle_client_session-slots env two_slots talk (inl refl, (inl refl, tt))
