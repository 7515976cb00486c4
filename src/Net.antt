-- ===== src/Net.antt =====
-- Project_3/Project_3/src/common/netutil.c: the loops that move all the bytes of a buffer over a connection.
-- What the kernel and OpenSSL answer to each call is a list of outcomes in the connection's state;
-- the list ends where the connection does, and every later call fails. The set-up of sockets is
-- not modelled.
pub mod Laws
pub mod Progress
mod Tests
use distributed_software_upd.Prelude.{
  ℕ, zero, suc, ◌-◌, min, Bool, true, false, List, [], ◌∷◌, ◌++◌, ℤ, pos, negsuc, ltb,
  if◌then◌else◌, length, take, drop, codes,
}

-- The return of `send`, `recv`, `SSL_write` or `SSL_read`: a number of bytes, EINTR,
-- SSL_ERROR_WANT_READ or SSL_ERROR_WANT_WRITE, or another error. No call moves more bytes than it
-- was asked to, nor reads bytes that have not come.
pub data Outcome : Type 0 where
  moved : ℕ → Outcome
  interrupted : Outcome
  want : Outcome
  broken : Outcome

-- `conn_t` with the state of its channel: the bytes written so far, and those still to be read.
pub record Conn : Type 0 where
  pub fd : ℤ
  pub ssl : Bool
  pub calls : List Outcome
  pub incoming : List ℕ
  pub outgoing : List ℕ

-- What the loop does after a call: it returns -1, calls again, or goes on by a number of bytes.
pub data Verdict : Type 0 where
  stop : Verdict
  again : Verdict
  go_on : ℕ → Verdict

-- `want` is an answer of OpenSSL and `interrupted` one of the kernel: under TLS the loop goes on
-- after the first only, without TLS after the second only.
abbrev pub verdict : Bool → Outcome → ℕ → Verdict
verdict ssl (moved zero) most = stop
verdict ssl (moved (suc n)) most = if ltb 0 most then go_on (min (suc n) most) else stop
verdict ssl interrupted most = if ssl then stop else again
verdict ssl want most = if ssl then again else stop
verdict ssl broken most = stop

abbrev pub max_call : ℕ
max_call = 0x3fff_ffff

abbrev pub chunk : ℕ → ℕ
chunk len = if ltb max_call len then max_call else len

-- The bytes left to write, and those written: whether all were written, with what is left of the
-- calls.
unfoldable pub write_loop : Bool → List Outcome → List ℕ → List ℕ → Bool × List Outcome × List ℕ
write_loop ssl calls [] out = (true, calls, out)
write_loop ssl [] (b ∷ buf) out = (false, [], out)
write_loop ssl (o ∷ calls) (b ∷ buf) out = elim (verdict ssl o (chunk (length (b ∷ buf)))) [
  | stop ↦ (false, calls, out)
  | again ↦ write_loop ssl calls (b ∷ buf) out
  | go_on n ↦ write_loop ssl calls (drop n (b ∷ buf)) (out ++ take n (b ∷ buf))
]

unfoldable pub conn_write_all : Conn → List ℕ → Bool × Conn
unfolding write_loop
conn_write_all c buf =
    let (ok, calls, out) = write_loop c.ssl c.calls buf c.outgoing in
    (ok, record c { calls = calls; outgoing = out })

-- The number of bytes still wanted, the bytes to come, and those read.
unfoldable pub read_loop :
    Bool → List Outcome → ℕ → List ℕ → List ℕ → Bool × List Outcome × List ℕ × List ℕ
read_loop ssl calls zero input buf = (true, calls, input, buf)
read_loop ssl [] (suc len) input buf = (false, [], input, buf)
read_loop ssl (o ∷ calls) (suc len) input buf =
    elim (verdict ssl o (min (chunk (suc len)) (length input))) [
      | stop ↦ (false, calls, input, buf)
      | again ↦ read_loop ssl calls (suc len) input buf
      | go_on n ↦ read_loop ssl calls (suc len - n) (drop n input) (buf ++ take n input)
    ]

-- The flag, the bytes, and the connection after it.
unfoldable pub conn_read_all : Conn → ℕ → Bool × List ℕ × Conn
unfolding read_loop
conn_read_all c len =
    let (ok, calls, input, buf) = read_loop c.ssl c.calls len c.incoming [] in
    (ok, buf, record c { calls = calls; incoming = input })

abbrev pub busy : List ℕ
busy = codes "BUSY\n"

-- To the bare socket of a connection that found no room in the queue.
pub conn_send_plain_busy : Conn → Bool × Conn
unfolding write_loop
conn_send_plain_busy c =
    let (ok, calls, out) = write_loop false c.calls busy c.outgoing in
    (ok, record c { calls = calls; outgoing = out })

abbrev closed : Conn → Conn
closed c = record c { fd = negsuc 0; ssl = false }

pub conn_close : Conn → Conn
conn_close c = elim c.fd [ negsuc n ↦ c | pos n ↦ closed c ]
