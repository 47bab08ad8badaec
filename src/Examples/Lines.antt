-- ===== src/Examples/Lines.antt =====
-- Lines that arrive on a session.
use kdeconnect_nx.Prelude.{Text, List, [], ◌∷◌, refl}
use kdeconnect_nx.Prelude.Int.{pos}
use kdeconnect_nx.Json.Body
use kdeconnect_nx.Client.State.{not_paired, Now}
use kdeconnect_nx.Client.Pairing.{pair_packet}
use kdeconnect_nx.Client.Dispatch.Isolation.{
  IsStranger, Untouched, handle_lines, handle_lines-IsStranger,
}
use kdeconnect_nx.Packet.{packet, serialize}
use kdeconnect_nx.Examples.TreeJson.{tree_json}
use kdeconnect_nx.Examples.Devices.{greeter, digest, client, noon}

abbrev ping : Text
ping = serialize tree_json (pos 0) (packet tree_json (112 ∷ []) (Body.empty tree_json))

abbrev asks : Text
asks = serialize tree_json (pos 0) (pair_packet tree_json greeter digest (47 ∷ []) (pos 43200))

-- The peer sends a packet for a plugin, asks twice for pairing, and tries once more.
abbrev attempts : List (Now × Text)
attempts = (noon, ping) ∷ (noon, asks) ∷ (noon, asks) ∷ (noon, ping) ∷ []

handle_lines-IsStranger_example :
    IsStranger
      ((handle_lines tree_json greeter digest (47 ∷ []) 0 attempts (client not_paired)).heap 0)
    × Untouched 0
        (client not_paired)
        (handle_lines tree_json greeter digest (47 ∷ []) 0 attempts (client not_paired))
handle_lines-IsStranger_example =
    handle_lines-IsStranger tree_json greeter digest (47 ∷ []) 0 0 attempts (client not_paired)
      (record { unpaired = refl; not_requested = refl })
