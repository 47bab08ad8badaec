-- ===== src/Examples/Connections.antt =====
-- Connections at concrete inputs.
use kdeconnect_nx.Prelude.{
  Text, bytes, true, false, none, some, [], ◌∷◌, ◌≡◌, ◌≢◌, refl, eq_text, lookup, insert, erase,
  c_str, is_some, arith,
}
use kdeconnect_nx.Prelude.Int.{pos, wrap32, wrap64}
use kdeconnect_nx.Json.Body
use kdeconnect_nx.Json.Body.{JsonBody, field, upsert}
use kdeconnect_nx.Json.Setters.{set_i64, set_int, set_str, set_obj, set_str_array, dump}
use kdeconnect_nx.Packet.{envelope, parse}
use kdeconnect_nx.Identity.{info_from_identity, make_identity_packet}
use kdeconnect_nx.Storage.{
  file_exists, read_file, write_file, paired_path, paired_body, load_paired_device,
  save_paired_device,
}
use kdeconnect_nx.Storage.Paired.{kept}
use kdeconnect_nx.Client.State.{not_paired, Client, device}
use kdeconnect_nx.Client.Connection.{Handshake, vetted, handle_new_connection}
use kdeconnect_nx.Client.Connection.Pinning.{vetted_pinned, vetted_unpinned}
use kdeconnect_nx.Client.Connection.Installed.{Installed, handle_new_connection-Installed}
use kdeconnect_nx.Examples.Tree.{encode, encode_text, read_tree}
use kdeconnect_nx.Examples.TreeJson.{tree_json}
use kdeconnect_nx.Examples.Devices.{phone, blank, greeter, digest, client, noon}

-- The phone is stored, and connects once more.
abbrev known : Client Text
known = record (client not_paired) {
  sessions = [];
  disk = save_paired_device tree_json (bytes "/kdc") blank phone (bytes "PEM");
}

abbrev handshake : Handshake
handshake = record {
  session_created = true;
  handshake_done = true;
  peer_cert_pem = bytes "PEM";
  peer_pubkey = 2 ∷ 3 ∷ [];
  identity_sent = true;
  line = some (
      dump tree_json false
        (envelope tree_json (pos 0) (make_identity_packet tree_json phone none none none)));
  show_on_connect = true;
}

let_in : vetted tree_json greeter digest (bytes "/kdc") true phone handshake known ≡ some phone
unfolding vetted bytes eq_text lookup insert erase c_str wrap32 wrap64 Body.has Body.get_str
    Body.get_obj Body.is_num Body.get_i64 Body.is_obj Body.value_str Body.value_int
    Body.get_str_array Body.parse field upsert set_i64 set_int set_str set_obj set_str_array dump
    envelope parse info_from_identity make_identity_packet file_exists read_file write_file
    paired_path paired_body load_paired_device save_paired_device device encode encode_text
    read_tree
let_in = refl

stored_phone :
    load_paired_device tree_json (bytes "/kdc") known.disk phone.id
    ≡ some (kept phone (bytes "PEM"))
unfolding bytes eq_text lookup insert erase c_str wrap32 Body.has Body.value_str Body.value_int
    Body.parse field upsert set_int set_str dump file_exists read_file write_file paired_path
    paired_body load_paired_device save_paired_device encode encode_text read_tree
stored_phone = refl

has_pem : bytes "PEM" ≢ []
unfolding bytes
has_pem e = cc

vetted_pinned_example : handshake.peer_cert_pem ≡ bytes "PEM"
vetted_pinned_example =
    vetted_pinned tree_json greeter digest (bytes "/kdc") phone phone handshake known
      (kept phone (bytes "PEM")) let_in stored_phone has_pem

-- An impostor without any certificate.
vetted_unpinned_example :
    vetted tree_json greeter digest
      (bytes "/kdc")
      false
      phone
      (record handshake { peer_cert_pem = [] })
      known
    ≡ vetted tree_json greeter digest (bytes "/kdc") false phone handshake known
vetted_unpinned_example =
    vetted_unpinned tree_json greeter digest (bytes "/kdc") phone handshake known []

-- During the handshake another connection of the phone is installed.
abbrev twice : Client Text → Client Text
twice c = record c { sessions = (bytes "phone", 0) ∷ [] }

handle_new_connection-Installed_example :
    Installed tree_json greeter digest
      (bytes "/kdc")
      phone.id
      (is_some (load_paired_device tree_json (bytes "/kdc") known.disk phone.id))
      handshake
      (twice known)
      (handle_new_connection tree_json greeter digest
        (bytes "/kdc")
        noon
        true
        phone
        handshake
        twice
        known)
handle_new_connection-Installed_example =
    handle_new_connection-Installed tree_json greeter digest (bytes "/kdc") noon true phone phone
      handshake twice known let_in (omega arith, tt)
