-- ===== src/Client/Connection.antt =====
-- `handle_new_connection`, and what `network_loop` checks of a connection before it.
pub mod Pinning
pub mod Installed
use kdeconnect_nx.Prelude.{
  ℕ, suc, ◌+◌, Text, bytes, Bool, true, false, not, ◌&&◌, ◌||◌, Option, none, some, List, [], ◌∷◌,
  ◌++◌, if◌then◌else◌, is_empty, is_some, eq_text, insert, ◌==◌,
}
use kdeconnect_nx.Prelude.Int.{ℤ, pos, eq_ℤ}
use kdeconnect_nx.Json.Yyjson.{Yyjson}
use kdeconnect_nx.Json.Body
use kdeconnect_nx.Packet.{NetworkPacket, packet, parse}
use kdeconnect_nx.Identity.{
  DeviceInfo, k_protocol_version, info_from_identity, make_identity_packet,
}
use kdeconnect_nx.Storage.{PairedDeviceInfo, load_paired_device}
use kdeconnect_nx.Client.State.{
  PairState, not_paired, paired, PluginHost, DeviceSession, Client, Now, device, update, notify,
}
use kdeconnect_nx.Client.Send.{send_packet, notify_plugins_connected}
use kdeconnect_nx.Client.Pairing.{unpair_packet}

-- What the socket and mbedtls answer while the connection is made: whether a TLS session could be set
-- up, the handshake, the peer's certificate and key, whether this device's identity was sent, and the
-- line that the peer sent. The setting says whether a notification is wanted.
pub record Handshake : Type 0 where
  pub session_created : Bool
  pub handshake_done : Bool
  pub peer_cert_pem : Text
  pub peer_pubkey : Text
  pub identity_sent : Bool
  pub line : Option Text
  pub show_on_connect : Bool

module _ (y : Yyjson) (host : PluginHost y) (sha256_hex_upper : Text → Text) (base : Text) where
  open host use {Plugin}

  -- The checks that `network_loop` makes of the identity that an incoming connection begins with.
  unfoldable pub accepts_identity : Client Plugin → NetworkPacket y → Bool
  accepts_identity c p =
      let tid = Body.value_str y p.body (bytes "targetDeviceId") [] in
      let version = Body.value_int y p.body (bytes "targetProtocolVersion") k_protocol_version in
      eq_text p.type (bytes "kdeconnect.identity")
      && not (
          Body.has y p.body (bytes "targetDeviceId")
          && (not (is_empty tid) && not (eq_text tid c.local_device.id)))
      && not (
          Body.has y p.body (bytes "targetProtocolVersion")
          && not (eq_ℤ version k_protocol_version))

  connected : Client Plugin → Option ℕ → Bool
  connected c none = false
  connected c (some h) = not (c.heap h).disconnected

  stored_pem : Option PairedDeviceInfo → Text
  stored_pem none = []
  stored_pem (some stored) = stored.certificate_pem

  -- The identity in a line, if the line is an identity packet.
  identity_packet : Option (NetworkPacket y) → Option DeviceInfo
  identity_packet none = none
  identity_packet (some p) =
      if eq_text p.type (bytes "kdeconnect.identity") then some (info_from_identity y p) else none

  identity_in : Option Text → Option DeviceInfo
  identity_in none = none
  identity_in (some line) = identity_packet (parse y line)

  matches : DeviceInfo → Option DeviceInfo → Option DeviceInfo
  matches identity none = none
  matches identity (some secure) =
      if not (eq_text secure.id identity.id)
        || not (eq_ℤ secure.protocol_version identity.protocol_version)
      then none
      else some secure

  -- The early returns of `handle_new_connection`, in their order: `none`, or the identity that the peer
  -- gave under TLS.
  unfoldable pub vetted : Bool → DeviceInfo → Handshake → Client Plugin → Option DeviceInfo
  unfolding connected stored_pem identity_packet identity_in matches
  vetted tcp_server_side identity t c =
      let stored = load_paired_device y base c.disk identity.id in
      if is_empty identity.id || eq_text identity.id c.local_device.id
      then none
      else if connected c (device c identity.id)
      then none
      else if not t.session_created
      then none
      else if not t.handshake_done
      then none
      else if is_empty t.peer_cert_pem && tcp_server_side
      then none
      else if is_some stored
          && (not (is_empty (stored_pem stored))
              && (not (eq_text t.peer_cert_pem (stored_pem stored)) && tcp_server_side))
      then none
      else if not t.identity_sent
      then none
      else matches identity (identity_in t.line)

  unfoldable pub new_session : DeviceInfo → Bool → Handshake → DeviceSession Plugin
  new_session secure is_paired t = record {
    info = secure;
    pair_state = if is_paired then paired else not_paired;
    pairing_timestamp = pos 0;
    is_paired = is_paired;
    cert_pem = t.peer_cert_pem;
    peer_pubkey = t.peer_pubkey;
    fd_open = true;
    send_queue = [];
    disconnected = false;
    plugins = host.instantiate secure.id;
  }

  -- An old session of the device is shut down and closed.
  unfoldable pub close_old : Option ℕ → Client Plugin → Client Plugin
  close_old none c = c
  close_old (some h) c = update h (λ s. record s { disconnected = true; fd_open = false }) c

  -- The session enters the map in place of the old one.
  unfoldable pub install : DeviceInfo → Bool → Handshake → Client Plugin → Client Plugin
  install secure is_paired t c =
      let h = c.next_handle in
      close_old (device c secure.id) (record c {
        heap = λ k. if k == h then new_session secure is_paired t else c.heap k;
        next_handle = suc h;
        sessions = insert secure.id h c.sessions;
      })

  -- What is sent once the session stands.
  unfoldable pub greet : Now → DeviceInfo → Bool → Client Plugin → Client Plugin
  greet now identity is_paired c =
      let c1 =
        if not is_paired
        then (send_packet y host now identity.id (unpair_packet y host sha256_hex_upper base) c).0
        else c in
      (send_packet y host now identity.id
        (make_identity_packet y c.local_device (some identity.id) (some identity.protocol_version)
          (some c.tcp_port))
        c1).0

  unfoldable pub establish :
      Now → DeviceInfo → Bool → Handshake → Client Plugin → Option DeviceInfo → Client Plugin
  establish now identity is_paired t c none = c
  establish now identity is_paired t c (some secure) =
      let c1 = install secure is_paired t c in
      let c2 =
        if is_paired && t.show_on_connect
        then notify secure.name (bytes "Connected") (bytes "connect_" ++ secure.id) c1
        else c1 in
      notify_plugins_connected y host now c.next_handle (greet now identity is_paired c2)

  -- Between the first look at the map and the disk and the session's entry into the map the handshake
  -- takes its time: `meanwhile` is what the other threads do to the client, another connection of the
  -- same device included.
  unfoldable pub handle_new_connection :
      Now
      → Bool
      → DeviceInfo
      → Handshake
      → (Client Plugin → Client Plugin)
      → Client Plugin
      → Client Plugin
  handle_new_connection now tcp_server_side identity t meanwhile c =
      let is_paired = is_some (load_paired_device y base c.disk identity.id) in
      establish now identity is_paired t (meanwhile c) (vetted tcp_server_side identity t c)
