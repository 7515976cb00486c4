-- ===== src/Session/Serve.antt =====
-- Project_3/Project_3/src/server/worker.c, `handle_client_session`: what follows the authentication.
-- Each function is the rest of the session from one point on.
use distributed_software_upd.Prelude.{
  ℕ, ◌+◌, ◌-◌, ◌/◌, ◌%◌, ◌^◌, Bool, true, false, Option, none, some, ◌++◌, CString, codes, ltb,
  ltb_ℤ, if◌then◌else◌, str_eq, copy_str, decimal, pos,
}
use distributed_software_upd.Protocol.{
  MsgType, msg_hello, msg_auth_ok, msg_version_req, msg_uptodate, msg_update_available,
  msg_download_req, msg_transfer_done, msg_result, msg_bye, proto_send, proto_send_text,
}
use distributed_software_upd.Protocol.Fields.{kv_get, kv_get_u64}
use distributed_software_upd.Version.{ver_is_valid, ver_compare_text}
use distributed_software_upd.Stats.{stats_active_client_update, active_client_label}
use distributed_software_upd.ActiveIds.{
  Slots, Reserved, reserved, duplicate, refused, reserve_active_client_id, release_active_client_id,
}
use distributed_software_upd.Package.{Transfer, pkg_resolve_path, pkg_stream_file}
use distributed_software_upd.Session.{
  Env, Talk, recv_control, expect, with_conn, fail, count_error, count_uptodate, count_served,
  authenticate_client,
}

abbrev say : Talk → MsgType → CString → Bool × Talk
say t type text = with_conn t (proto_send_text t.conn type text)

-- A frame without payload.
abbrev signal : Talk → MsgType → Bool × Talk
signal t type = with_conn t (proto_send t.conn type 0 none 0)

-- `snprintf` into a buffer of MAX_CONTROL_PAYLOAD + 1 bytes.
abbrev reply : CString → CString
reply text = copy_str 1025 text

-- The client says how the update went.
abbrev record_status : Talk → Option CString → Talk
record_status t none = count_error t
record_status t (some status) = if str_eq status (codes "ok") then count_served t else count_error t

unfoldable pub take_result : Option CString × Talk → Bool × Talk
take_result (none, t) = (false, t)
take_result (some payload, t) =
    let t' = record_status t (kv_get payload (codes "status") 32) in signal t' msg_bye

abbrev expecting : MsgType → Talk → Option CString × Talk
expecting type t = let (got, t') = recv_control t in (expect type got, t')

unfoldable pub close_transfer : Bool × Talk → Bool × Talk
unfolding take_result recv_control
close_transfer (false, t) = (false, t)
close_transfer (true, t) = take_result (expecting msg_result t)

-- The file has been streamed, or not.
unfoldable pub end_stream : Env → Bool × Talk → Bool × Talk
unfolding close_transfer
end_stream env (false, t) = (false, count_error t)
end_stream env (true, t) =
    close_transfer
      (say t msg_transfer_done (reply (codes "sha256=" ++ env.manifest.checksum_sha256)))

abbrev after_stream : Talk → Bool × Transfer → Bool × Talk
after_stream t (ok, r) = (
  ok,
  record {
    conn = r.channel.conn;
    selects = r.channel.selects;
    stats = record t.stats { bytes_sent = r.bytes_sent };
  },
)

unfoldable pub stream_package : Env → CString → ℕ → Talk → Bool × Talk
unfolding end_stream
stream_package env path offset t =
    let busy = record t.stats { active_transfers = t.stats.active_transfers + 1 } in
    let (ok, t') =
      after_stream (record t { stats = busy })
        (pkg_stream_file (env.file_at path) offset env.chunk_size (record {
          channel = record { conn = t.conn; selects = t.selects };
          bytes_sent = busy.bytes_sent;
        })) in
    end_stream env (
      ok,
      record t' { stats = record t'.stats { active_transfers = t'.stats.active_transfers - 1 } },
    )

unfoldable pub take_request : Env → CString → Option CString × Talk → Bool × Talk
unfolding stream_package
take_request env path (none, t) =
    (false, fail t (codes "BAD_REQUEST") (codes "expected DOWNLOAD_REQ"))
take_request env path (some payload, t) =
    let size = env.manifest.package_size in
    let offset = kv_get_u64 payload (codes "offset") ((size + 1) % 2 ^ 64) in
    if ltb size offset
    then (false, fail t (codes "BAD_REQUEST") (codes "offset beyond package size"))
    else stream_package env path offset t

unfoldable pub await_request : Env → CString → Bool × Talk → Bool × Talk
unfolding take_request recv_control
await_request env path (false, t) = (false, t)
await_request env path (true, t) = take_request env path (expecting msg_download_req t)

abbrev pub chunk_count : Env → ℕ
chunk_count env = (env.manifest.package_size + env.chunk_size - 1) % 2 ^ 64 / env.chunk_size

unfoldable pub meta : Env → CString
meta env = reply (
    codes "ver="
    ++ (env.manifest.latest_version
        ++ (codes ";size="
            ++ (decimal env.manifest.package_size
                ++ (codes ";chunk="
                    ++ (decimal env.chunk_size
                        ++ (codes ";chunks="
                            ++ (decimal (chunk_count env)
                                ++ (codes ";sha256=" ++ env.manifest.checksum_sha256)))))))))

unfoldable pub offer_update : Env → Talk → Bool × Talk
unfolding await_request meta
offer_update env t = elim (pkg_resolve_path env.package_dir env.manifest.package_file 512) [
  | none ↦ (false, fail (count_error t) (codes "NO_PACKAGE") (codes "package path invalid"))
  | some path ↦ await_request env path (say t msg_update_available (meta env))
]

abbrev then_bye : Bool × Talk → Bool × Talk
then_bye (false, t) = (false, t)
then_bye (true, t) = signal t msg_bye

unfoldable pub answer_uptodate : Env → Talk → Bool × Talk
answer_uptodate env t =
    then_bye
      (say (count_uptodate t) msg_uptodate (reply (codes "latest=" ++ env.manifest.latest_version)))

unfoldable pub compare_versions : Env → CString → Talk → Bool × Talk
unfolding offer_update answer_uptodate
compare_versions env current t = elim (ver_compare_text current env.manifest.latest_version) [
  | none ↦ (false, fail t (codes "BAD_VERSION") (codes "invalid semantic version"))
  | some cmp ↦ elim (ltb_ℤ cmp (pos 0)) [
    | true ↦ offer_update env t
    | false ↦ answer_uptodate env t
  ]
]

abbrev bad_version : Talk → Bool × Talk
bad_version t =
    (false, fail (count_error t) (codes "BAD_VERSION") (codes "invalid semantic version"))

unfoldable pub take_version : Env → Option CString × Talk → Bool × Talk
unfolding compare_versions
take_version env (none, t) = (false, fail t (codes "BAD_REQUEST") (codes "expected VERSION_REQ"))
take_version env (some payload, t) = elim (kv_get payload (codes "cur") 32) [
  | none ↦ bad_version t
  | some current ↦ elim (ver_is_valid current) [
    | false ↦ bad_version t
    | true ↦ compare_versions env current t
  ]
]

-- `snprintf(active_label, ..., "%s (%s)", ...)`.
abbrev label : CString → CString → CString
label id info = copy_str active_client_label (id ++ (codes " (" ++ (info ++ codes ")")))

-- AUTH_OK has been sent, or not.
unfoldable pub attend : Env → CString → Bool × Talk → Bool × Talk
unfolding take_version recv_control
attend env id (false, t) = (false, t)
attend env id (true, t) =
    let stats = stats_active_client_update t.stats env.client_info (label id env.client_info) in
    take_version env (expecting msg_version_req (record t { stats = stats }))

-- What `reserve_active_client_id` returned; the label `done` of the source releases the id.
unfoldable pub run_reserved : Env → CString → Slots → Talk → Reserved → Bool × Slots × Talk
unfolding attend
run_reserved env id slots t duplicate = (
  false,
  slots,
  fail t (codes "DUPLICATE_CLIENT") (codes "client id already has an active session"),
)
run_reserved env id slots t refused =
    (false, slots, fail t (codes "SERVER_BUSY") (codes "server active client registry is full"))
run_reserved env id slots t (reserved taken) =
    let (ok, t') = attend env id (signal t msg_auth_ok) in
    (ok, release_active_client_id taken id, t')

unfoldable pub admit : Env → Slots → Option CString × Talk → Bool × Slots × Talk
unfolding run_reserved
admit env slots (none, t) = (false, slots, t)
admit env slots (some id, t) = run_reserved env id slots t (reserve_active_client_id slots id)

abbrev pub greeted : Env → Slots → Bool × Talk → Bool × Slots × Talk
greeted env slots (false, t) = (false, slots, t)
greeted env slots (true, t) = admit env slots (authenticate_client env t)

-- The flag is `true` for the return of 0. No other session is under way at the same time.
unfoldable pub handle_client_session : Env → Slots → Talk → Bool × Slots × Talk
unfolding admit
handle_client_session env slots t = greeted env slots (say t msg_hello (codes "srv=updctl;proto=1"))
