-- ===== src/Client/Pairing.antt =====
-- The pairing handlers of kdeconnect_client.cpp: what the peer sends, and what the user asks for.
pub mod Status
pub mod Window
pub mod Consent
pub mod Clock
pub mod Stored
use kdeconnect_nx.Prelude.{
  ℕ, ◌*◌, ◌+◌, Text, bytes, Bool, true, false, not, ◌&&◌, ◌||◌, Option, none, some, List, [], ◌∷◌,
  ◌++◌, if◌then◌else◌, is_empty, is_some,
}
use kdeconnect_nx.Prelude.Int.{ℤ, pos, ◌-ℤ◌, wrap64, llabs, ltb_ℤ, eq_ℤ}
use kdeconnect_nx.Json.Yyjson.{Yyjson}
use kdeconnect_nx.Json.Body
use kdeconnect_nx.Json.Body.{JsonBody}
use kdeconnect_nx.Json.Setters.{set_bool, set_i64}
use kdeconnect_nx.Packet.{NetworkPacket, packet}
use kdeconnect_nx.Storage.{save_paired_device, remove_paired_device}
use kdeconnect_nx.Client.State.{
  PairState, not_paired, requested, requested_by_peer, paired, is_requested, PluginHost,
  DeviceSession, Client, Now, device, update, notify,
}
use kdeconnect_nx.Client.Key.{verification_key}
use kdeconnect_nx.Client.Send.{send_packet, notify_plugins_connected}

-- `kPairingWindowSeconds`
abbrev pub pairing_window_seconds : ℤ
pairing_window_seconds = pos 1800

-- `timestamp != 0 && std::llabs(now - timestamp) > kPairingWindowSeconds`
unfoldable pub is_skewed : ℤ → ℤ → Bool
is_skewed now timestamp =
    not (eq_ℤ timestamp (pos 0)) && ltb_ℤ pairing_window_seconds (llabs (wrap64 (now -ℤ timestamp)))

abbrev pub set_pairing : {P : Type 0} → PairState → Bool → DeviceSession P → DeviceSession P
set_pairing state is_paired s = record s { pair_state = state; is_paired = is_paired }

-- `PacketTypes::Pair`
unfoldable pub pair_type : Text
pair_type = bytes "kdeconnect.pair"

module _ (y : Yyjson) (host : PluginHost y) (sha256_hex_upper : Text → Text) (base : Text) where
  open host use {Plugin}

  -- The session becomes paired: its state, the disk, then its plugins.
  unfoldable pub complete_pairing : Now → ℕ → Client Plugin → Client Plugin
  complete_pairing now h c =
      let s = c.heap h in
      let c1 = update h (set_pairing paired true) c in
      notify_plugins_connected y host now h
        (record c1 { disk = save_paired_device y base c.disk s.info s.cert_pem })

  -- The session is no longer paired, and the disk forgets the device.
  unfoldable pub drop_pairing : ℕ → Client Plugin → Client Plugin
  drop_pairing h c =
      let c1 = update h (set_pairing not_paired false) c in
      record c1 { disk = remove_paired_device base c.disk (c.heap h).info.id }

  -- A pair packet with `pair` set.
  unfoldable pub peer_wants_pair : Now → ℕ → ℤ → Client Plugin → Client Plugin
  peer_wants_pair now h timestamp c =
      let s = c.heap h in
      let key = verification_key sha256_hex_upper c.local_pubkey s.peer_pubkey timestamp in
      if is_skewed now.seconds timestamp
      then notify s.info.name
          (bytes "Pair request rejected due to clock skew. Check the system time.")
          (s.info.id ++ bytes "_error") c
      else if is_requested s.pair_state
      then if is_empty s.cert_pem
        then c
        else notify s.info.name (bytes "Pair request accepted") (s.info.id ++ bytes "_accepted")
            (complete_pairing now h c)
      else notify s.info.name
          (bytes "Incoming pair request. Open the overlay to accept. Key: " ++ key)
          (s.info.id ++ bytes "_incoming")
          (update h
            (λ t. record t { pair_state = requested_by_peer; pairing_timestamp = timestamp }) c)

  -- A pair packet with `pair` not set: a refusal, or the end of a pairing.
  unfoldable pub peer_unpairs : ℕ → Client Plugin → Client Plugin
  peer_unpairs h c =
      let s = c.heap h in
      if is_requested s.pair_state
      then notify s.info.name (bytes "Pair request denied") (s.info.id ++ bytes "_denied")
          (drop_pairing h c)
      else drop_pairing h c

  unfoldable pub handle_pair_packet : Now → ℕ → JsonBody y → Client Plugin → Client Plugin
  handle_pair_packet now h body c =
      if Body.value_bool y body (bytes "pair") false
      then peer_wants_pair now h (Body.value_i64 y body (bytes "timestamp") (pos 0)) c
      else peer_unpairs h c

  -- The packets that this device sends: a request or an acceptance, and a refusal.
  unfoldable pub pair_packet : ℤ → NetworkPacket y
  pair_packet timestamp =
      packet y pair_type
        (set_i64 y (bytes "timestamp") timestamp (set_bool y (bytes "pair") true (Body.empty y)))

  unfoldable pub unpair_packet : NetworkPacket y
  unpair_packet = packet y pair_type (set_bool y (bytes "pair") false (Body.empty y))

  unfoldable pub request_sent : ℕ → ℤ → Client Plugin × Bool → Client Plugin
  request_sent h ts (c, true) =
      update h (λ t. record t { pair_state = requested; pairing_timestamp = ts }) c
  request_sent h ts (c, false) = c

  unfoldable pub request_session : Now → Text → Option ℕ → Client Plugin → Client Plugin
  request_session now id none c = c
  request_session now id (some h) c =
      if (c.heap h).is_paired
      then c
      else request_sent h now.seconds (send_packet y host now id (pair_packet now.seconds) c)

  unfoldable pub request_pair : Now → Text → Client Plugin → Client Plugin
  request_pair now id c = request_session now id (device c id) c

  unfoldable pub accept_sent : Now → ℕ → Client Plugin × Bool → Client Plugin
  accept_sent now h (c, true) = complete_pairing now h c
  accept_sent now h (c, false) = c

  unfoldable pub accept_session : Now → Text → Option ℕ → Client Plugin → Client Plugin
  accept_session now id none c = c
  accept_session now id (some h) c =
      if is_empty (c.heap h).cert_pem
      then c
      else accept_sent now h (send_packet y host now id (pair_packet now.milliseconds) c)

  unfoldable pub accept_pair : Now → Text → Client Plugin → Client Plugin
  accept_pair now id c = accept_session now id (device c id) c

  unfoldable pub drop_sent : ℕ → Client Plugin × Bool → Client Plugin
  drop_sent h (c, true) = drop_pairing h c
  drop_sent h (c, false) = c

  unfoldable pub reject_session : Now → Text → Option ℕ → Client Plugin → Client Plugin
  reject_session now id none c = c
  reject_session now id (some h) c = drop_sent h (send_packet y host now id unpair_packet c)

  unfoldable pub reject_pair : Now → Text → Client Plugin → Client Plugin
  reject_pair now id c = reject_session now id (device c id) c

  -- An offline device is removed from the disk under the id that was asked for.
  unfoldable pub unpair_session : Now → Text → Option ℕ → Client Plugin → Client Plugin
  unpair_session now id none c = record c { disk = remove_paired_device base c.disk id }
  unpair_session now id (some h) c =
      if (c.heap h).disconnected
      then update h (set_pairing not_paired false)
          (record c { disk = remove_paired_device base c.disk id })
      else if not (c.heap h).is_paired
      then c
      else drop_sent h (send_packet y host now id unpair_packet c)

  unfoldable pub unpair : Now → Text → Client Plugin → Client Plugin
  unpair now id c = unpair_session now id (device c id) c
