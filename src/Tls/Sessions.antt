-- ===== src/Tls/Sessions.antt =====
-- The sessions of sysmodule/src/net/tls.cpp: how one is set up, what its sockets answer to mbedtls,
-- and what is read of a certificate. A buffer that an encoder has to fit into is a size, and what the
-- encoder gives is what it has written.
use kdeconnect_nx.Prelude.{
  ℕ, zero, suc, ◌≤◌, Text, Bool, Option, none, some, List, [], length, leb, ◌≡◌, ◌↔◌, refl, arith,
  if◌then◌else◌, Bool-cases, inl, inr,
}
use kdeconnect_nx.Prelude.Int.{ℤ, pos, negsuc}
use kdeconnect_nx.Tls.{Mbedtls, PkContext, TlsContext}

-- What a callback of a socket returns: a number of bytes, or an error of mbedtls.
pub data SocketAnswer : Type 0 where
  moved : ℕ → SocketAnswer
  want_read internal_error peer_close_notify : SocketAnswer

-- Of what `send` returns.
unfoldable pub socket_send : ℤ → SocketAnswer
socket_send (pos sent) = moved sent
socket_send (negsuc e) = internal_error

-- Of what `recv` returns, and whether `errno` says that the call would block.
unfoldable pub socket_recv : Bool → ℤ → SocketAnswer
socket_recv blocked (negsuc e) = if blocked then want_read else internal_error
socket_recv blocked (pos zero) = peer_close_notify
socket_recv blocked (pos (suc n)) = moved (suc n)

pub data AuthMode : Type 0 where
  verify_none verify_optional : AuthMode

-- `TlsSession` with what its configuration is given.
pub record TlsSession (m : Mbedtls) : Type 0 where
  pub fd : ℤ
  pub is_client : Bool
  pub authmode : AuthMode
  pub own_cert : List m.Certificate
  pub own_key : PkContext m.Key

module _ (m : Mbedtls) where
  -- `create_session`, with whether the defaults and the set-up of mbedtls succeed.
  unfoldable pub create_session : Bool → Bool → ℤ → Bool → TlsContext m → Option (TlsSession m)
  create_session has_defaults sets_up fd is_client c =
      if has_defaults
      then (if sets_up
          then some (record {
            fd = fd;
            is_client = is_client;
            authmode = if is_client then verify_none else verify_optional;
            own_cert = c.cert;
            own_key = c.key;
          })
          else none)
      else none

-- `mbedtls_pem_write_buffer` for a certificate: what it writes into a buffer of a size, if it can. As
-- is documented, it needs room for the text and a NUL.
pub record PemWriter : Type 0 where
  pub encoded : Text → Text
  pub write : Text → ℕ → Option Text
  pub fits :
      (raw : Text) (size : ℕ)
      → write raw size
        ≡ (if leb (suc (length (encoded raw))) size then some (encoded raw) else none)

-- `std::string` of the data of a vector, which is null where the vector is empty; there the outcome is
-- undefined.
unfoldable pub text_of_data : Option Text → Option Text
text_of_data none = none
text_of_data (some pem) = some pem

-- `peer_cert_pem` of the raw certificate of the peer, if it has one.
unfoldable pub peer_cert_pem : PemWriter → Option Text → Option Text
unfolding text_of_data
peer_cert_pem w none = some []
peer_cert_pem w (some raw) = text_of_data (w.write raw 4096)

-- `peer_pubkey_bytes`, and `local_pubkey_bytes` for the key of this device, of what
-- `mbedtls_pk_write_pubkey_der` can write into 2048 bytes.
unfoldable pub pubkey_bytes : {K : Type 0} → (K → ℕ → Option Text) → Option K → Text
pubkey_bytes der none = []
pubkey_bytes der (some k) = elim (der k 2048) [ none ↦ [] | some bytes_out ↦ bytes_out ]

-- The text of a peer's certificate is defined exactly if there is no certificate, or its text is
-- shorter than the buffer of 4096 bytes.
pub peer_cert_pem_lem :
    (w : PemWriter) (raw : Text)
    → ((peer_cert_pem w (some raw) ≡ none) ↔ (4096 ≤ length (w.encoded raw)))
      × (peer_cert_pem w none ≡ some [])
unfolding peer_cert_pem text_of_data
peer_cert_pem_lem w raw = elim (Bool-cases (leb (suc (length (w.encoded raw))) 4096)) [
  | inl room ↦ rw (w.fits raw 4096, room) ((λ h. cc, λ h. absurd (ground (arith, h, room))), refl)
  | inr long ↦ rw (w.fits raw 4096, long) ((λ h. ground (arith, long), λ h. refl), refl)
]
