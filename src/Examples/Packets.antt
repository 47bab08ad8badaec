-- ===== src/Examples/Packets.antt =====
-- Packets on the wire, with the trees as JSON library.
use kdeconnect_nx.Prelude.{bytes, true, some, [], ◌∷◌, ◌≡◌, refl, arith}
use kdeconnect_nx.Prelude.Int.{pos}
use kdeconnect_nx.Json.Body
use kdeconnect_nx.Json.Body.{JsonBody, upsert}
use kdeconnect_nx.Json.Setters.{set_bool, set_i64, set_int, set_str, set_obj}
use kdeconnect_nx.Packet.{NetworkPacket, envelope, serialize, parse}
use kdeconnect_nx.Packet.RoundTrip.{parse-serialize}
use kdeconnect_nx.Examples.TreeJson.{tree_json}

-- A file of 5 bytes, offered on port 1739.
abbrev offer : NetworkPacket tree_json
offer = record {
  type = b'p' ∷ b'q' ∷ [];
  body = set_bool tree_json (bytes "pair") true (Body.empty tree_json);
  payload_size = pos 5;
  payload_port = pos 1739;
  send_payload = 1 ∷ 2 ∷ 3 ∷ 4 ∷ 5 ∷ [];
}

parse-serialize_example :
    parse tree_json (serialize tree_json (pos 0) offer) ≡ some (record offer { send_payload = [] })
unfolding envelope set_bool set_i64 set_int set_str set_obj upsert
parse-serialize_example =
    parse-serialize tree_json (pos 0) offer _ refl (omega arith) (omega arith) (omega arith) refl
