-- ===== src/Session/Laws.antt =====
-- Who gets a session, and what it leaves behind.
use distributed_software_upd.Prelude.{
  ℕ, ◌<◌, ◌≡◌, refl, subst, inl, inr, Bool, true, false, ◌&&◌, Option, none, some, CString, codes,
  length, str_eq, str_eq-eq, is_empty, if◌then◌else◌, arith, Bool-cases, Option-cases,
}
use distributed_software_upd.Protocol.{MsgType, msg_auth, msg_hello, proto_send_text}
use distributed_software_upd.Protocol.Fields.{kv_get, parts, find_field}
use distributed_software_upd.Auth.{auth_client_registered, auth_client_status}
use distributed_software_upd.ActiveIds.{
  Slots, Reserved, reserved, duplicate, refused, reserve_active_client_id,
}
use distributed_software_upd.ActiveIds.Table.{Distinct}
use distributed_software_upd.ActiveIds.Laws.{IsAnswer, reserve_active_client_id_lem}
use distributed_software_upd.Session.{
  Env, Talk, recv_control, expect, with_conn, check_id, await_auth, with_cert, authenticate_client,
}
use distributed_software_upd.Session.Serve.{run_reserved, admit, greeted, handle_client_session}

kv_get-fits :
    (payload key : CString) (n : ℕ) {v : CString} → kv_get payload key n ≡ some v → length v < n
unfolding kv_get
kv_get-fits payload key n {v} h = elim (Option-cases (find_field key (parts payload))) [
  | inl e ↦ absurd (ground arith)
  | inr (got, e) ↦ ground arith
]

registered-nonempty :
    (registry : Option CString) (id : CString)
    → auth_client_registered registry id ≡ true
    → is_empty id ≡ false
unfolding auth_client_registered auth_client_status
registered-nonempty none id h = cc
registered-nonempty (some text) id h = elim (Bool-cases (is_empty id)) [
  | inl e ↦ absurd (ground arith)
  | inr e ↦ e
]

-- The client with this id may have a session.
pub record IsAdmitted (env : Env) (id : CString) : Type 0 where
  pub certified : env.cert_id ≡ some id
  pub registered : auth_client_registered env.registry id ≡ true
  pub nonempty : is_empty id ≡ false
  pub fits : length id < 64

check_id-IsAdmitted :
    (env : Env) (cert : CString) (t : Talk) (payload : CString) {id : CString}
    → env.cert_id ≡ some cert
    → (check_id env cert t payload).0 ≡ some id
    → IsAdmitted env id
unfolding check_id
check_id-IsAdmitted env cert t payload {id} c =
    elim (Option-cases (kv_get payload (codes "id") 64)) [
      | inl n ↦ rw (n, check_id) (λ h. absurd (cc))
      | inr (got, n) ↦
          elim (Bool-cases (str_eq got cert && auth_client_registered env.registry got)) [
            | inr p ↦ rw (n, check_id, p, if◌then◌else◌) (λ h. absurd (cc))
            | inl p ↦
                rw (n, check_id, p, if◌then◌else◌)
                  (λ h.
                    let e : got ≡ id = ground arith in
                    let same : got ≡ cert = str_eq-eq got cert (ground arith) in
                    let r : auth_client_registered env.registry got ≡ true = ground arith in
                    rw (← e) (record {
                      certified = rw same c;
                      registered = r;
                      nonempty = registered-nonempty env.registry got r;
                      fits = kv_get-fits payload (codes "id") 64 n;
                    }))
          ]
    ]

await_auth-IsAdmitted :
    (env : Env) (cert : CString) (r : Option (MsgType × CString) × Talk) {id : CString}
    → env.cert_id ≡ some cert
    → (await_auth env cert r).0 ≡ some id
    → IsAdmitted env id
await_auth-IsAdmitted env cert (got, t) c = elim (Option-cases (expect msg_auth got)) [
  | inl n ↦ rw (n, await_auth) (λ h. absurd (cc))
  | inr (payload, n) ↦ rw (n, await_auth) (check_id-IsAdmitted env cert t payload c)
]

with_cert-IsAdmitted :
    (env : Env) (t : Talk) (o : Option CString) {id : CString}
    → env.cert_id ≡ o
    → (with_cert env t o).0 ≡ some id
    → IsAdmitted env id
with_cert-IsAdmitted env t none c h = cc
with_cert-IsAdmitted env t (some cert) c h = await_auth-IsAdmitted env cert (recv_control t) c h

-- `authenticate_client` lets a client in only over TLS, under the id that its certificate names,
-- and only where the registry enables that id. The id is not empty and fits its array.
pub authenticate_client-IsAdmitted :
    (env : Env) (t : Talk) {id : CString}
    → (authenticate_client env t).0 ≡ some id
    → (t.conn.ssl ≡ true) × IsAdmitted env id
unfolding authenticate_client
authenticate_client-IsAdmitted env t {id} h = elim (Bool-cases t.conn.ssl) [
  | inr s ↦
      let e : (if t.conn.ssl then env.cert_id else none) ≡ none = rw s refl in
      let h' : (with_cert env t none).0 ≡ some id =
        subst (λ o. (with_cert env t o).0 ≡ some id) e h in
      absurd (cc)
  | inl s ↦
      let e : (if t.conn.ssl then env.cert_id else none) ≡ env.cert_id = rw s refl in
      (
        s,
        with_cert-IsAdmitted env t env.cert_id refl
            (subst (λ o. (with_cert env t o).0 ≡ some id) e h),
      )
]

run_reserved-slots :
    (env : Env) (id : CString) (slots : Slots) (t : Talk) (r : Reserved)
    → IsAnswer slots id r
    → (run_reserved env id slots t r).1 ≡ slots
unfolding run_reserved
run_reserved-slots env id slots t duplicate a = refl
run_reserved-slots env id slots t refused a = refl
run_reserved-slots env id slots t (reserved taken) a = a.2

admit-slots :
    (env : Env) (slots : Slots) (t : Talk)
    → Distinct slots
    → (admit env slots (authenticate_client env t)).1 ≡ slots
unfolding admit
admit-slots env slots t d = elim (Option-cases (authenticate_client env t).0) [
  | inl n ↦ rw (n, admit) refl
  | inr (id, n) ↦
      let a = (authenticate_client-IsAdmitted env t n).1 in
      rw (n, admit)
        (run_reserved-slots env id slots (authenticate_client env t).1
          (reserve_active_client_id slots id)
          (reserve_active_client_id_lem slots id a.nonempty a.fits d))
]

greeted-slots :
    (env : Env) (slots : Slots) (r : Bool × Talk) → Distinct slots → (greeted env slots r).1 ≡ slots
greeted-slots env slots (false, t) d = refl
greeted-slots env slots (true, t) d = admit-slots env slots t d

-- However a session ends, it gives back the slot that it took: the active ids are those from before
-- it, so the same client can come again.
pub handle_client_session-slots :
    (env : Env) (slots : Slots) (t : Talk)
    → Distinct slots
    → (handle_client_session env slots t).1 ≡ slots
unfolding handle_client_session
handle_client_session-slots env slots t d =
    greeted-slots env slots
      (with_conn t (proto_send_text t.conn msg_hello (codes "srv=updctl;proto=1"))) d
