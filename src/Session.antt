-- ===== src/Session.antt =====
-- Project_3/Project_3/src/server/worker.c, one client's session: `authenticate_client` and
-- `handle_client_session`. The log lines are left out.
pub mod Serve
pub mod Laws
mod Tests
use distributed_software_upd.Prelude.{
  ℕ, ◌+◌, ◌-◌, ◌/◌, ◌%◌, ◌^◌, Bool, true, false, ◌&&◌, not, Option, none, some, List, [], ◌∷◌, ◌++◌,
  CString, codes, ltb, if◌then◌else◌, str_eq, split_at, copy_str, decimal, ℤ, pos, negsuc,
}
use distributed_software_upd.Net.{Conn}
use distributed_software_upd.Protocol.{
  MsgType, msg_hello, msg_auth, msg_auth_ok, msg_version_req, msg_uptodate, msg_update_available,
  msg_download_req, msg_transfer_done, msg_result, msg_bye, is_type, max_control_payload, Recv,
  recv_ok, recv_eof, recv_bad, recv_too_large, proto_send, proto_send_text, proto_send_error,
  proto_recv,
}
use distributed_software_upd.Protocol.Fields.{kv_get, kv_get_u64}
use distributed_software_upd.Version.{ver_is_valid, ver_compare_text}
use distributed_software_upd.Stats.{Stats, stats_active_client_update}
use distributed_software_upd.Auth.{auth_client_registered}
use distributed_software_upd.ActiveIds.{
  Slots, Reserved, reserved, duplicate, refused, reserve_active_client_id, release_active_client_id,
}
use distributed_software_upd.Package.{
  Ready, Channel, PackageFile, Transfer, pkg_resolve_path, pkg_stream_file,
}
use distributed_software_upd.VersionManager.{Manifest}

-- What a session reads: the server's settings, the common name of the client's certificate (none
-- where it has no such name), the text of the registry, the current manifest and the package
-- files.
pub record Env : Type 0 where
  pub chunk_size : ℕ
  pub package_dir : CString
  pub client_info : CString
  pub cert_id : Option CString
  pub registry : Option CString
  pub manifest : Manifest
  pub file_at : CString → PackageFile

-- What a session changes, beside the slots of the active ids.
pub record Talk : Type 0 where
  pub conn : Conn
  pub selects : List Ready
  pub stats : Stats

-- The bytes before the first zero.
abbrev pub c_text : List ℕ → CString
c_text bytes = elim (split_at 0 bytes) [ none ↦ bytes | some (text, _) ↦ text ]

abbrev pub text_of : Recv → Option (MsgType × CString)
text_of (recv_ok type flags payload) = some (type, c_text payload)
text_of recv_eof = none
text_of recv_bad = none
text_of recv_too_large = none

unfoldable pub recv_control : Talk → Option (MsgType × CString) × Talk
recv_control t =
    let (r, c) = proto_recv t.conn (max_control_payload + 1) 0 in (text_of r, record t { conn = c })

-- The payload of a message of the type that is expected.
abbrev pub expect : MsgType → Option (MsgType × CString) → Option CString
expect wanted none = none
expect wanted (some (type, text)) = if is_type type wanted then some text else none

abbrev pub with_conn : Talk → Bool × Conn → Bool × Talk
with_conn t (ok, c) = (ok, record t { conn = c })

-- An ERROR frame is sent, whether that succeeds or not.
abbrev pub fail : Talk → CString → CString → Talk
fail t code message = (with_conn t (proto_send_error t.conn code message)).1

abbrev pub count_auth_failure : Talk → Talk
count_auth_failure t = record t {
  stats = record t.stats { auth_failures = t.stats.auth_failures + 1 };
}

abbrev pub count_error : Talk → Talk
count_error t = record t { stats = record t.stats { errors = t.stats.errors + 1 } }

abbrev pub count_uptodate : Talk → Talk
count_uptodate t = record t {
  stats = record t.stats { uptodate_responses = t.stats.uptodate_responses + 1 };
}

abbrev pub count_served : Talk → Talk
count_served t = record t { stats = record t.stats { updates_served = t.stats.updates_served + 1 } }

-- The id of the AUTH message is the certificate's, and it is registered.
unfoldable pub check_id : Env → CString → Talk → CString → Option CString × Talk
check_id env cert t payload = elim (kv_get payload (codes "id") 64) [
  | none ↦ (none, fail t (codes "AUTH_FAIL") (codes "missing credentials"))
  | some id ↦
      if str_eq id cert && auth_client_registered env.registry id
      then (some id, t)
      else (none, fail (count_auth_failure t) (codes "AUTH_FAIL") (codes "invalid credentials"))
]

abbrev pub await_auth : Env → CString → Option (MsgType × CString) × Talk → Option CString × Talk
await_auth env cert (got, t) = elim (expect msg_auth got) [
  | none ↦ (none, fail t (codes "BAD_REQUEST") (codes "expected AUTH"))
  | some payload ↦ check_id env cert t payload
]

abbrev pub with_cert : Env → Talk → Option CString → Option CString × Talk
with_cert env t none =
    (none, fail (count_auth_failure t) (codes "AUTH_FAIL") (codes "missing client certificate"))
with_cert env t (some cert) = await_auth env cert (recv_control t)

-- The client's id, or none for the return of -1.
unfoldable pub authenticate_client : Env → Talk → Option CString × Talk
unfolding check_id recv_control
authenticate_client env t = with_cert env t (if t.conn.ssl then env.cert_id else none)
