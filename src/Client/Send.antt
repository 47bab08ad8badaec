-- ===== src/Client/Send.antt =====
-- `send_packet`, the plugins of a session, and the packets that arrive on it.
use kdeconnect_nx.Prelude.{
  ℕ, Text, Bool, true, false, Option, none, some, List, [], ◌∷◌, ◌++◌, if◌then◌else◌,
}
use kdeconnect_nx.Json.Yyjson.{Yyjson}
use kdeconnect_nx.Packet.{NetworkPacket, serialize}
use kdeconnect_nx.Client.State.{PluginHost, DeviceSession, Client, Now, device, update}

module _ (y : Yyjson) (host : PluginHost y) where
  open host use {Plugin}

  unfoldable pub push_line : Text → DeviceSession Plugin → DeviceSession Plugin
  push_line line s = record s { send_queue = s.send_queue ++ line ∷ [] }

  unfoldable pub send_to : Option ℕ → Now → NetworkPacket y → Client Plugin → Client Plugin × Bool
  send_to none now p c = (c, false)
  send_to (some h) now p c =
      if (c.heap h).disconnected
      then (c, false)
      else (update h (push_line (serialize y now.milliseconds p)) c, true)

  -- The session that the map holds gets the line, whichever session asks.
  unfoldable pub send_packet : Now → Text → NetworkPacket y → Client Plugin → Client Plugin × Bool
  send_packet now id p c = send_to (device c id) now p c

  -- `Plugin::send_packet`, for all that a plugin sends.
  unfoldable pub send_all : Now → Text → List (NetworkPacket y) → Client Plugin → Client Plugin
  send_all now id [] c = c
  send_all now id (p ∷ ps) c = send_all now id ps (send_packet now id p c).0

  unfoldable pub connect_plugins :
      Now → Text → Bool → List Plugin → Client Plugin → Client Plugin × List Plugin
  connect_plugins now id is_paired [] c = (c, [])
  connect_plugins now id is_paired (p ∷ ps) c =
      let (p', sent) = host.on_connected is_paired p in
      let (c', ps') = connect_plugins now id is_paired ps (send_all now id sent c) in (c', p' ∷ ps')

  -- `notify_plugins_connected(session)`. A plugin keeps the id of its device.
  unfoldable pub notify_plugins_connected : Now → ℕ → Client Plugin → Client Plugin
  notify_plugins_connected now h c =
      let s = c.heap h in
      let (c', ps) = connect_plugins now s.info.id s.is_paired s.plugins c in
      update h (λ t. record t { plugins = ps }) c'
