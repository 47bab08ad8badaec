-- ===== src/Client/Discovery/Announced.antt =====
-- Who is found.
use kdeconnect_nx.Prelude.{
  ℕ, suc, ◌+◌, ◌≤◌, Text, bytes, Bool, false, ◌&&◌, none, some, List, [], ◌∷◌, ◌≡◌, refl, sym, ap,
  ◌∙◌, subst, arith, ltb, eq_text, eq_text_refl, is_empty, HasNoNul, concat_ne, Bool-cases, inl,
  inr,
}
use kdeconnect_nx.Prelude.Int.{ℤ, IsInt32, IsInt64}
use kdeconnect_nx.Json.Yyjson.{Yyjson}
use kdeconnect_nx.Json.Body
use kdeconnect_nx.Json.Body.{JsonBody, field, upsert}
use kdeconnect_nx.Json.Setters.{set_int, dump}
use kdeconnect_nx.Json.Fields.{IsObject, upsert-IsObject, field-upsert_self}
use kdeconnect_nx.Json.Upserts.{value_int-mut_int}
use kdeconnect_nx.Json.Written.{Writes}
use kdeconnect_nx.Packet.{NetworkPacket, envelope, serialize, parse}
use kdeconnect_nx.Packet.RoundTrip.{received, parse-serialize}
use kdeconnect_nx.Identity.{
  DeviceInfo, k_protocol_version, info_from_identity, set_if, identity_body, make_identity_packet,
}
use kdeconnect_nx.Identity.RoundTrip.{
  IsPlain, identity_body-IsObject, info_from_identity-make_identity_packet,
}
use kdeconnect_nx.Client.Discovery.{
  k_min_tcp_port, udp_broadcast_loop, announcement, peer_of, discovered,
}

-- At most five announcements are sent, however long the client runs.
pub udp_broadcast_loop_lem :
    (has_socket : Bool) (rs : List Bool) (count : ℕ)
    → count ≤ 5
    → count + udp_broadcast_loop has_socket rs count ≤ 5
unfolding udp_broadcast_loop
udp_broadcast_loop_lem has_socket [] count h = omega (arith, h)
udp_broadcast_loop_lem has_socket (running ∷ rs) count h =
    elim (Bool-cases (running && ltb count 5)) [
      | inl on ↦
          let rest = udp_broadcast_loop_lem has_socket rs (suc count) (ground (arith, on)) in
          elim (Bool-cases has_socket) [
            | inl there ↦ rw (on, there) (omega (arith, rest))
            | inr missing ↦ rw (on, missing) (omega (arith, rest))
          ]
      | inr off ↦ rw off (omega (arith, h))
    ]

identity-HasNoNul : HasNoNul (bytes "kdeconnect.identity")
unfolding bytes
identity-HasNoNul = (
  omega arith,
  (
    omega arith,
    (
      omega arith,
      (
        omega arith,
        (
          omega arith,
          (
            omega arith,
            (
              omega arith,
              (
                omega arith,
                (
                  omega arith,
                  (
                    omega arith,
                    (
                      omega arith,
                      (
                        omega arith,
                        (
                          omega arith,
                          (
                            omega arith,
                            (
                              omega arith,
                              (omega arith, (omega arith, (omega arith, (omega arith, tt)))),
                            ),
                          ),
                        ),
                      ),
                    ),
                  ),
                ),
              ),
            ),
          ),
        ),
      ),
    ),
  ),
)

module _ (y : Yyjson) (info : DeviceInfo) (port : ℤ) where
  abbrev sent_identity : NetworkPacket y
  sent_identity = make_identity_packet y info none none (some port)

  body_with_port :
      sent_identity.body ≡ upsert y (identity_body y info) (bytes "tcpPort") (y.mut_int port)
  unfolding make_identity_packet set_if set_int
  body_with_port = refl

  sent_identity-IsObject : IsObject y sent_identity.body
  sent_identity-IsObject = subst (IsObject y) (sym body_with_port) (
      upsert-IsObject y (identity_body y info) (bytes "tcpPort") (y.mut_int port)
        (identity_body-IsObject y info))

  port_read :
      IsInt32 port → Body.value_int y sent_identity.body (bytes "tcpPort") k_min_tcp_port ≡ port
  port_read fits =
      value_int-mut_int y sent_identity.body (bytes "tcpPort") port k_min_tcp_port fits (
        ap (λ b. field y b (bytes "tcpPort")) body_with_port
        ∙ field-upsert_self y (identity_body y info) (bytes "tcpPort") (y.mut_int port)
            (identity_body-IsObject y info))

  received-announced : received y sent_identity ≡ sent_identity
  unfolding make_identity_packet
  received-announced = refl

  type-announced : sent_identity.type ≡ bytes "kdeconnect.identity"
  unfolding make_identity_packet
  type-announced = refl

  identity-announced : IsPlain info → info_from_identity y sent_identity ≡ info
  identity-announced plain =
      info_from_identity-make_identity_packet y info none none (some port) plain

  version-announced :
      IsPlain info
      → Body.value_int y sent_identity.body (bytes "protocolVersion") k_protocol_version
        ≡ info.protocol_version
  unfolding info_from_identity
  version-announced plain = ap (λ i. i.protocol_version) (identity-announced plain)

  peer_of-announced :
      (local_id : Text)
      → IsPlain info
      → IsInt32 port
      → is_empty info.id ≡ false
      → eq_text info.id local_id ≡ false
      → peer_of y local_id (some (received y sent_identity)) ≡ some (info, port)
  unfolding peer_of
  peer_of-announced local_id plain fits named other =
      rw
        (
          received-announced,
          identity-announced plain,
          type-announced,
          eq_text_refl (bytes "kdeconnect.identity"),
          named,
          other,
          version-announced plain,
          port_read fits,
        )
        refl

  type-HasNoNul : HasNoNul sent_identity.type
  type-HasNoNul = subst HasNoNul (sym type-announced) identity-HasNoNul

  no_payload : IsInt64 sent_identity.payload_size × IsInt32 sent_identity.payload_port
  unfolding make_identity_packet
  no_payload = ((omega arith, omega arith), (omega arith, omega arith))

  announcement-parsed :
      (now : ℤ) (s : Text)
      → Writes y false (envelope y now sent_identity) s
      → parse y (announcement y now info port) ≡ some (received y sent_identity)
  unfolding announcement
  announcement-parsed now s w =
      parse-serialize y now sent_identity s sent_identity-IsObject type-HasNoNul no_payload.0
        no_payload.1 w

  announcement_ne :
      (now : ℤ) (s : Text)
      → Writes y false (envelope y now sent_identity) s
      → is_empty (announcement y now info port) ≡ false
  unfolding announcement serialize
  announcement_ne now s w = concat_ne (dump y false (envelope y now sent_identity)) b'\n'

  -- The announcement of a device, whose strings have no NUL and whose protocol version and port fit an
  -- `int`, makes a receiver with another id handle it as a peer, with all of the information that the
  -- sender gave and with its port, where the sender's id is not empty and the announcement is written
  -- and arrives whole.
  pub discovered-announcement :
      (local_id : Text) (now : ℤ) (s : Text)
      → IsPlain info
      → IsInt32 port
      → is_empty info.id ≡ false
      → eq_text info.id local_id ≡ false
      → Writes y false (envelope y now sent_identity) s
      → discovered y local_id (announcement y now info port) ≡ some (info, port)
  unfolding discovered
  discovered-announcement local_id now s plain fits named other w =
      rw (announcement_ne now s w, announcement-parsed now s w)
        (peer_of-announced local_id plain fits named other)
