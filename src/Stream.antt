-- ===== src/Stream.antt =====
-- The loops of utils/network_util.cpp over a socket or a TLS session. What the calls answer, one after
-- the other, is a list; where the list ends the call has not answered yet, and the loop still waits.
pub mod Reading
pub mod Writing
use kdeconnect_nx.Prelude.{
  ℕ, ◌-◌, ◌≤◌, Text, Bool, true, false, not, Option, none, some, List, [], ◌∷◌, ◌++◌, ◌==◌,
  if◌then◌else◌, ltb, leb, length, take, drop,
}

-- A read of one byte: the byte, MBEDTLS_ERR_SSL_WANT_READ or _WANT_WRITE, or the end or another error.
-- `socket_recv` of net/tls.cpp answers WANT_READ when the receive timeout of the socket passes.
pub data Read : Type 0 where
  byte : ℕ → Read
  retry failed : Read

-- The line and the answers that are left, no line (`std::nullopt`), or the bytes so far of a loop that
-- waits.
pub data Outcome : Type 0 where
  line : Text → List Read → Outcome
  no_line : List Read → Outcome
  waiting : Text → Outcome

-- The loop of `read_line_fd`, with the bytes that it has. Only `recv` of a byte continues.
unfoldable pub read_loop_fd : ℕ → Text → List Read → Outcome
read_loop_fd max_bytes out [] = if ltb (length out) max_bytes then waiting out else no_line []
read_loop_fd max_bytes out (byte c ∷ es) =
    let rest = read_loop_fd max_bytes (out ++ c ∷ []) es in
    if not (ltb (length out) max_bytes)
    then no_line (byte c ∷ es)
    else if c == b'\n'
    then line out es
    else rest
read_loop_fd max_bytes out (retry ∷ es) =
    if ltb (length out) max_bytes then no_line es else no_line (retry ∷ es)
read_loop_fd max_bytes out (failed ∷ es) =
    if ltb (length out) max_bytes then no_line es else no_line (failed ∷ es)

unfoldable pub read_line_fd : ℕ → List Read → Outcome
unfolding read_loop_fd
read_line_fd max_bytes es = read_loop_fd max_bytes [] es

-- The loop of `read_line_tls`.
unfoldable pub read_loop_tls : ℕ → Text → List Read → Outcome
read_loop_tls max_bytes out [] = if ltb (length out) max_bytes then waiting out else no_line []
read_loop_tls max_bytes out (byte c ∷ es) =
    let rest = read_loop_tls max_bytes (out ++ c ∷ []) es in
    if not (ltb (length out) max_bytes)
    then no_line (byte c ∷ es)
    else if c == b'\n'
    then line out es
    else rest
read_loop_tls max_bytes out (retry ∷ es) =
    let rest = read_loop_tls max_bytes out es in
    if ltb (length out) max_bytes then rest else no_line (retry ∷ es)
read_loop_tls max_bytes out (failed ∷ es) =
    if ltb (length out) max_bytes then no_line es else no_line (failed ∷ es)

unfoldable pub read_line_tls : ℕ → List Read → Outcome
unfolding read_loop_tls
read_line_tls max_bytes es = read_loop_tls max_bytes [] es

-- `mbedtls_ssl_write`: how many of the bytes that are left it has taken, to be called again, or an
-- error.
pub data Write : Type 0 where
  wrote : ℕ → Write
  retry failed : Write

-- What became of the data: all of it was taken, the loop gave up, or it still waits; with the bytes
-- that were taken.
pub data Sent : Type 0 where
  sent gave_up pending : Text → Sent

abbrev pub taken : Text → Sent → Sent
taken done (sent t) = sent (done ++ t)
taken done (gave_up t) = gave_up (done ++ t)
taken done (pending t) = pending (done ++ t)

-- `send_all_tls_raw`, on the bytes that are left.
unfoldable pub send_all_tls : Text → List Write → Sent
send_all_tls [] es = sent []
send_all_tls (c ∷ cs) [] = pending []
send_all_tls (c ∷ cs) (wrote n ∷ es) =
    let rest = taken (take n (c ∷ cs)) (send_all_tls (drop n (c ∷ cs)) es) in
    if leb n 0 then gave_up [] else rest
send_all_tls (c ∷ cs) (retry ∷ es) = send_all_tls (c ∷ cs) es
send_all_tls (c ∷ cs) (failed ∷ es) = gave_up []

-- `mbedtls_ssl_handshake`: done, to be called again, or an error.
pub data Shake : Type 0 where
  done retry failed : Shake

-- `perform_tls_handshake`; `none` where it still waits.
unfoldable pub perform_tls_handshake : List Shake → Option Bool
perform_tls_handshake [] = none
perform_tls_handshake (done ∷ es) = some true
perform_tls_handshake (retry ∷ es) = perform_tls_handshake es
perform_tls_handshake (failed ∷ es) = some false
