-- ===== src/Examples/Devices.antt =====
-- A client with one session, on an empty disk.
use kdeconnect_nx.Prelude.{Text, bytes, true, false, none, [], ◌∷◌}
use kdeconnect_nx.Prelude.Int.{pos}
use kdeconnect_nx.Json.Body
use kdeconnect_nx.Packet.{packet}
use kdeconnect_nx.Identity.{DeviceInfo}
use kdeconnect_nx.Storage.{Disk}
use kdeconnect_nx.Client.State.{PairState, PluginHost, DeviceSession, Client, Now}
use kdeconnect_nx.Examples.TreeJson.{tree_json}

abbrev pub phone : DeviceInfo
phone = record {
  id = bytes "phone";
  name = bytes "My phone";
  type = bytes "phone";
  protocol_version = pos 8;
  incoming_capabilities = bytes "kdeconnect.ping" ∷ [];
  outgoing_capabilities = [];
}

abbrev pub console : DeviceInfo
console = record phone { id = bytes "switch"; name = bytes "Switch"; type = bytes "tablet" }

abbrev pub blank : Disk
blank = record {
  files = [];
  can_write = λ path. true;
  failed_write = λ path text. none;
  can_remove = λ path. true;
}

-- One plugin, which greets a device that connects.
abbrev pub greeter : PluginHost tree_json
greeter = record {
  Plugin = Text;
  instantiate = λ id. id ∷ [];
  supported_packet_types = λ p. bytes "kdeconnect.ping" ∷ [];
  on_connected = λ b p. (p, packet tree_json (bytes "kdeconnect.ping") (Body.empty tree_json) ∷ []);
  on_packet_received = λ d np p. (p, true, [], d, []);
}

abbrev pub digest : Text → Text
digest t = t

abbrev pub session : PairState → DeviceSession Text
session state = record {
  info = phone;
  pair_state = state;
  pairing_timestamp = pos 0;
  is_paired = false;
  cert_pem = bytes "PEM";
  peer_pubkey = 2 ∷ 3 ∷ [];
  fd_open = true;
  send_queue = [];
  disconnected = false;
  plugins = bytes "phone" ∷ [];
}

abbrev pub client : PairState → Client Text
client state = record {
  local_device = console;
  local_pubkey = 1 ∷ [];
  tcp_port = pos 1716;
  sessions = (bytes "phone", 0) ∷ [];
  heap = λ h. session state;
  next_handle = 1;
  disk = blank;
  notifications = [];
}

abbrev pub noon : Now
noon = record { seconds = pos 43200; milliseconds = pos 43200000 }
