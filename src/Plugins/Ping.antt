-- ===== src/Plugins/Ping.antt =====
-- plugins/ping_plugin.cpp and find_my_phone_plugin.cpp. The name of the session that the device has, if
-- it has one, is an argument.
use kdeconnect_nx.Prelude.{
  ℕ, ◌+◌, ◌%◌, ◌^◌, Text, bytes, Bool, true, Option, none, some, ◌++◌, if◌then◌else◌, is_empty,
}
use kdeconnect_nx.Prelude.Int.{pos}
use kdeconnect_nx.Json.Yyjson.{Yyjson}
use kdeconnect_nx.Json.Body
use kdeconnect_nx.Json.Setters.{set_str}
use kdeconnect_nx.Packet.{NetworkPacket, packet}
use kdeconnect_nx.Client.State.{Notification}
use kdeconnect_nx.Client.Key.{to_string}

pub record PingPlugin : Type 0 where
  pub id : ℕ

unfoldable pub name_or : Text → Option Text → Text
name_or device_id none = device_id
name_or device_id (some name) = name

module _ (y : Yyjson) where
  unfoldable pub on_packet_received :
      Text → Option Text → NetworkPacket y → PingPlugin → (PingPlugin × Notification) × Bool
  on_packet_received device_id name np p =
      let n : Notification = record {
        title = bytes "From " ++ name_or device_id name;
        body =
            if Body.is_str y np.body (bytes "message")
            then Body.get_str y np.body (bytes "message")
            else bytes "Ping!";
        id = to_string (pos p.id);
      } in
      ((record p { id = (p.id + 1) % 2 ^ 32 }, n), true)

  unfoldable pub ping : Text → NetworkPacket y
  ping message = packet y (bytes "kdeconnect.ping") (
      if is_empty message then Body.empty y else set_str y (bytes "message") message (Body.empty y))

  -- `FindMyPhonePlugin::find`
  unfoldable pub find : NetworkPacket y
  find = packet y (bytes "kdeconnect.findmyphone.request") (Body.empty y)
