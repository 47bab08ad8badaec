-- ===== src/Examples/Pairing.antt =====
-- Identities, the disk and pairing at concrete inputs.
use kdeconnect_nx.Prelude.{
  ◌+◌, ◌*◌, Text, List, bytes, true, none, some, ◌∷◌, ◌++◌, ◌≡◌, lookup, erase, refl, arith,
  eq_text,
}
use kdeconnect_nx.Prelude.Int.{pos, ◌-ℤ◌, wrap64, llabs}
use kdeconnect_nx.Json.Body
use kdeconnect_nx.Json.Body.{JsonBody, field, upsert}
use kdeconnect_nx.Json.Setters.{set_bool, set_i64, set_int, set_str, set_obj, set_str_array}
use kdeconnect_nx.Identity.{info_from_identity, make_identity_packet, identity_body, set_if}
use kdeconnect_nx.Packet.{envelope}
use kdeconnect_nx.Identity.RoundTrip.{IsPlain, info_from_identity-make_identity_packet}
use kdeconnect_nx.Client.State.{requested, requested_by_peer, Now, device, notify}
use kdeconnect_nx.Client.Send.{
  send_packet, send_to, push_line, send_all, connect_plugins, notify_plugins_connected,
}
use kdeconnect_nx.Client.Pairing.{
  is_skewed, handle_pair_packet, peer_wants_pair, complete_pairing, pair_packet, unpair_packet,
  accept_pair,
}
use kdeconnect_nx.Client.Pairing.Status.{status}
use kdeconnect_nx.Client.Pairing.Consent.{
  Causes, perform, perform_consent, IsCoherent, perform-IsCoherent, peer_sends,
}
use kdeconnect_nx.Client.Pairing.Clock.{accept_pair-refused}
use kdeconnect_nx.Client.Dispatch.{handle_packet}
use kdeconnect_nx.Client.Discovery.{announcement, discovered}
use kdeconnect_nx.Client.Discovery.Announced.{discovered-announcement}
use kdeconnect_nx.Examples.TreeJson.{tree_json}
use kdeconnect_nx.Examples.Devices.{phone, greeter, digest, client, noon}

phone-IsPlain : IsPlain phone
unfolding bytes
phone-IsPlain = record {
  id_plain = omega arith;
  name_plain = omega arith;
  type_plain = omega arith;
  version_fits = omega arith;
  incoming_plain = omega arith;
  outgoing_plain = tt;
}

info_from_identity-make_identity_packet_example :
    info_from_identity tree_json
      (make_identity_packet tree_json phone (some (bytes "switch")) none (some (pos 1716)))
    ≡ phone
info_from_identity-make_identity_packet_example =
    info_from_identity-make_identity_packet tree_json phone (some (bytes "switch")) none
      (some (pos 1716)) phone-IsPlain

discovered-announcement_example :
    discovered tree_json
      (bytes "switch")
      (announcement tree_json noon.milliseconds phone (pos 1717))
    ≡ some (phone, pos 1717)
unfolding bytes envelope identity_body make_identity_packet set_if set_int set_str set_i64 set_obj
    set_str_array upsert eq_text
discovered-announcement_example =
    discovered-announcement tree_json phone (pos 1717) (bytes "switch") noon.milliseconds _
      phone-IsPlain (omega arith) refl refl refl

-- The peer's acceptance of what the user had requested.
abbrev acceptance : JsonBody tree_json
acceptance = (pair_packet tree_json greeter digest (bytes "/kdc") (pos 43200)).body

accepted :
    ((perform tree_json greeter digest
        (bytes "/kdc")
        noon
        (peer_sends 0 acceptance)
        (client requested)).heap
      0).is_paired
    ≡ true
unfolding perform handle_pair_packet peer_wants_pair complete_pairing pair_packet set_bool set_i64
    upsert field Body.value_bool Body.value_i64 bytes eq_text lookup erase is_skewed ◌-ℤ◌ wrap64
    llabs notify_plugins_connected connect_plugins send_all send_packet send_to push_line device
accepted = refl

perform_consent_example :
    Causes tree_json greeter digest
      (bytes "/kdc")
      noon
      (peer_sends 0 acceptance)
      (client requested)
      0
perform_consent_example =
    perform_consent tree_json greeter digest (bytes "/kdc") noon (peer_sends 0 acceptance)
      (client requested) 0 refl accepted

perform-IsCoherent_example : IsCoherent tree_json greeter digest (bytes "/kdc") (
    status tree_json greeter digest (bytes "/kdc") 0 (
      perform tree_json greeter digest
        (bytes "/kdc")
        noon
        (peer_sends 0 acceptance)
        (client requested)))
perform-IsCoherent_example =
    (perform-IsCoherent tree_json greeter digest (bytes "/kdc") noon (peer_sends 0 acceptance)
      (client requested) 0 (λ j. refl)).0

-- The user accepts at second 43200 and 250 milliseconds of the clock.
abbrev answering : Now
answering = record { seconds = pos 43200; milliseconds = pos (1000 * 43200 + 250) }

abbrev second_later : Now
second_later = record { seconds = pos 43201; milliseconds = pos 43201000 }

accept_pair-refused_example :
    (line : Text) × (more : List Text) × (((accept_pair tree_json greeter digest
          (bytes "/kdc")
          answering
          (bytes "phone")
          (client requested_by_peer)).heap
        0).send_queue
      ≡ line ∷ more)
    × (handle_packet tree_json greeter digest (bytes "/kdc") second_later 0 line (client requested)
        ≡ notify phone.name
            (bytes "Pair request rejected due to clock skew. Check the system time.")
            (phone.id ++ bytes "_error")
            (client requested))
unfolding device lookup bytes eq_text pair_packet envelope set_bool set_i64 set_int set_str set_obj
    upsert
accept_pair-refused_example =
    accept_pair-refused tree_json greeter digest (bytes "/kdc") 43200 43201 250 0 0 (pos 43201000)
      (bytes "phone") _ (client requested_by_peer) (client requested) refl refl refl refl
      (omega arith) (omega arith) (omega arith) (omega arith)

abbrev refusal : JsonBody tree_json
refusal = (unpair_packet tree_json greeter digest (bytes "/kdc")).body
