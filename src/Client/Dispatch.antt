-- ===== src/Client/Dispatch.antt =====
-- `handle_packet` of kdeconnect_client.cpp: a line that arrives on a session. A plugin
-- changes its own state, sends packets, changes files and posts notifications.
pub mod Isolation
use kdeconnect_nx.Prelude.{
  ℕ, Text, Bool, true, false, not, Option, none, some, List, [], ◌∷◌, if◌then◌else◌, eq_text,
}
use kdeconnect_nx.Json.Yyjson.{Yyjson}
use kdeconnect_nx.Packet.{NetworkPacket, parse}
use kdeconnect_nx.Client.State.{PluginHost, DeviceSession, Client, Now, update, outside}
use kdeconnect_nx.Client.Send.{send_all}
use kdeconnect_nx.Client.Pairing.{pair_type, handle_pair_packet}

module _ (y : Yyjson) (host : PluginHost y) where
  open host use {Plugin}

  -- The loop over the types that a plugin supports: the plugin is called for each that is the packet's,
  -- until it has handled the packet.
  unfoldable pub offer_types :
      Now
      → Text
      → NetworkPacket y
      → List Text
      → Plugin
      → Client Plugin
      → Client Plugin × Plugin × Bool
  offer_types now id np [] p c = (c, p, false)
  offer_types now id np (t ∷ ts) p c =
      let (p', handled, sent, disk, posted) = host.on_packet_received c.disk np p in
      let step =
        if eq_text t np.type
        then (send_all y host now id sent (outside disk posted c), p', handled)
        else (c, p, false) in
      let rest = offer_types now id np ts step.1 step.0 in if step.2 then step else rest

  -- The loop over the plugins, until one has handled the packet.
  unfoldable pub offer_plugins :
      Now → Text → NetworkPacket y → List Plugin → Client Plugin → Client Plugin × List Plugin
  offer_plugins now id np [] c = (c, [])
  offer_plugins now id np (p ∷ ps) c =
      let (c', p', handled) = offer_types now id np (host.supported_packet_types p) p c in
      let (c'', ps') = offer_plugins now id np ps c' in
      if handled then (c', p' ∷ ps) else (c'', p' ∷ ps')

module _ (y : Yyjson) (host : PluginHost y) (sha256_hex_upper : Text → Text) (base : Text) where
  open host use {Plugin}

  unfoldable pub handle_parsed : Now → ℕ → Option (NetworkPacket y) → Client Plugin → Client Plugin
  handle_parsed now h none c = c
  handle_parsed now h (some np) c =
      let s = c.heap h in
      let (c', ps) = offer_plugins y host now s.info.id np s.plugins c in
      if eq_text np.type pair_type
      then handle_pair_packet y host sha256_hex_upper base now h np.body c
      else if not s.is_paired
      then c
      else update h (λ t. record t { plugins = ps }) c'

  unfoldable pub handle_packet : Now → ℕ → Text → Client Plugin → Client Plugin
  handle_packet now h line c = handle_parsed now h (parse y line) c
