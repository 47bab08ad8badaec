-- ===== src/Stream/Reading.antt =====
-- What the loops make of the answers to their reads.
use kdeconnect_nx.Prelude.{
  ℕ, ◌+◌, ◌<◌, Text, true, false, List, [], ◌∷◌, ◌++◌, ◌≡◌, refl, ap, ◌∙◌, arith, ltb, length,
  length-append, IsLine, map, append_assoc, append-nil, Bool-cases, inl, inr,
}
use kdeconnect_nx.Stream.{
  Read, byte, retry, failed, Outcome, line, no_line, waiting, read_loop_tls, read_line_tls, Shake,
  done, perform_tls_handshake,
}

-- The answers without those that ask to be called again.
abbrev pub answered : List Read → List Read
answered [] = []
answered (byte c ∷ es) = byte c ∷ answered es
answered (retry ∷ es) = answered es
answered (failed ∷ es) = failed ∷ answered es

abbrev pub settled : Outcome → Outcome
settled (line t es) = line t (answered es)
settled (no_line es) = no_line (answered es)
settled (waiting t) = waiting t

loop_full :
    (max : ℕ) (out : Text) (es : List Read)
    → ltb (length out) max ≡ false
    → read_loop_tls max out es ≡ no_line es
unfolding read_loop_tls
loop_full max out [] h = ground arith
loop_full max out (byte c ∷ es) h = ground arith
loop_full max out (retry ∷ es) h = ground arith
loop_full max out (failed ∷ es) h = ground arith

loop_answered :
    (max : ℕ) (out : Text) (es : List Read)
    → settled (read_loop_tls max out es) ≡ read_loop_tls max out (answered es)
unfolding read_loop_tls
loop_answered max out [] = ground arith
loop_answered max out (byte c ∷ es) = ground (arith, loop_answered max (out ++ c ∷ []) es)
loop_answered max out (retry ∷ es) = elim (Bool-cases (ltb (length out) max)) [
  | inl room ↦ rw room (loop_answered max out es)
  | inr full ↦ rw (full, loop_full max out (answered es) full)
]
loop_answered max out (failed ∷ es) = ground arith

-- A timeout of the socket never ends the wait for a line: whatever number of reads ask to be called
-- again, and wherever, the outcome is that of the other answers alone.
pub read_line_tls-answered :
    (max : ℕ) (es : List Read) → settled (read_line_tls max es) ≡ read_line_tls max (answered es)
unfolding read_line_tls
read_line_tls-answered max es = loop_answered max [] es

loop_line :
    (max : ℕ) (out t : Text) (rest : List Read)
    → IsLine t
    → length out + length t < max
    → read_loop_tls max out (map byte t ++ byte b'\n' ∷ rest) ≡ line (out ++ t) rest
unfolding read_loop_tls
loop_line max out [] rest clean small =
    let room : ltb (length out) max ≡ true = ground arith in rw (room, append-nil out)
loop_line max out (c ∷ t) rest clean small =
    let room : ltb (length out) max ≡ true = ground arith in
    let again =
      loop_line max (out ++ c ∷ []) t rest clean.1 (omega (arith, length-append out (c ∷ []))) in
    rw (room, clean.0) (again ∙ ap (λ u. line u rest) (append_assoc out (c ∷ []) t))

-- A line below the limit is read as it was sent, and nothing after it is taken.
pub read_line_tls-line :
    (max : ℕ) (t : Text) (rest : List Read)
    → IsLine t
    → length t < max
    → read_line_tls max (map byte t ++ byte b'\n' ∷ rest) ≡ line t rest
unfolding read_line_tls
read_line_tls-line max t rest clean small = loop_line max [] t rest clean (omega arith)

abbrev pub IsBounded : ℕ → Outcome → Type 0
IsBounded max (line t es) = length t < max
IsBounded max (no_line es) = Unit
IsBounded max (waiting t) = length t < max

loop-IsBounded : (max : ℕ) (out : Text) (es : List Read) → IsBounded max (read_loop_tls max out es)
unfolding read_loop_tls
loop-IsBounded max out [] = ground arith
loop-IsBounded max out (byte c ∷ es) = ground (arith, loop-IsBounded max (out ++ c ∷ []) es)
loop-IsBounded max out (retry ∷ es) = ground (arith, loop-IsBounded max out es)
loop-IsBounded max out (failed ∷ es) = ground arith

abbrev settled_handshakes : List Shake → List Shake
settled_handshakes [] = []
settled_handshakes (done ∷ es) = done ∷ settled_handshakes es
settled_handshakes (Shake.retry ∷ es) = settled_handshakes es
settled_handshakes (Shake.failed ∷ es) = Shake.failed ∷ settled_handshakes es

-- Nor does a timeout end a handshake.
pub perform_tls_handshake-settled :
    (es : List Shake) → perform_tls_handshake es ≡ perform_tls_handshake (settled_handshakes es)
unfolding perform_tls_handshake
perform_tls_handshake-settled [] = refl
perform_tls_handshake-settled (done ∷ es) = refl
perform_tls_handshake-settled (Shake.retry ∷ es) = perform_tls_handshake-settled es
perform_tls_handshake-settled (Shake.failed ∷ es) = refl
