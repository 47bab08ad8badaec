-- ===== src/Client/Discovery.antt =====
-- How the client finds devices: the datagrams that `network_loop` of net/kdeconnect_client.cpp takes,
-- the announcements of `udp_broadcast_loop`, the threads that are reaped, and the list of the devices
-- that are paired but not here. A datagram is what `recvfrom` gave; each turn of the loops is an entry
-- of a list.
pub mod Announced
pub mod Absent
use kdeconnect_nx.Prelude.{
  ℕ, suc, Text, bytes, Bool, true, false, not, ◌&&◌, ◌||◌, Option, none, some, List, [], ◌∷◌,
  if◌then◌else◌, ltb, eq_text, is_empty, is_some, lookup,
}
use kdeconnect_nx.Prelude.Int.{ℤ, pos}
use kdeconnect_nx.Json.Yyjson.{Yyjson}
use kdeconnect_nx.Json.Body
use kdeconnect_nx.Packet.{NetworkPacket, serialize, parse}
use kdeconnect_nx.Identity.{
  DeviceInfo, k_protocol_version, info_from_identity, make_identity_packet,
}
use kdeconnect_nx.Storage.{Disk, PairedDeviceInfo, load_paired_device}

abbrev pub k_min_tcp_port : ℤ
k_min_tcp_port = pos 1716

-- `reap_pending_threads_locked`, on the flags of the threads: a thread that is done is joined.
unfoldable pub reap_pending_threads : {T : Type 0} → (T → Bool) → List T → List T
reap_pending_threads done [] = []
reap_pending_threads done (t ∷ ts) =
    if done t then reap_pending_threads done ts else t ∷ reap_pending_threads done ts

-- `udp_broadcast_loop`, with `running_` at each test and the count so far: how many announcements are
-- sent. The pause between two of them ends early where the client stops.
unfoldable pub udp_broadcast_loop : Bool → List Bool → ℕ → ℕ
udp_broadcast_loop has_socket [] count = 0
udp_broadcast_loop has_socket (running ∷ rs) count =
    let rest = udp_broadcast_loop has_socket rs (suc count) in
    if running && ltb count 5 then (if has_socket then suc rest else rest) else 0

module _ (y : Yyjson) where
  unfoldable pub announcement : ℤ → DeviceInfo → ℤ → Text
  announcement now local_device tcp_port =
      serialize y now (make_identity_packet y local_device none none (some tcp_port))

  -- The peer of a packet, with the port that it listens on.
  unfoldable pub peer_of : Text → Option (NetworkPacket y) → Option (DeviceInfo × ℤ)
  peer_of local_id none = none
  peer_of local_id (some p) =
      let identity = info_from_identity y p in
      let version = Body.value_int y p.body (bytes "protocolVersion") k_protocol_version in
      let port = Body.value_int y p.body (bytes "tcpPort") k_min_tcp_port in
      if not (eq_text p.type (bytes "kdeconnect.identity"))
      then none
      else if not (is_empty identity.id) && not (eq_text identity.id local_id)
      then some (record identity { protocol_version = version }, port)
      else none

  -- What `handle_discovered_peer` is called with, if it is.
  unfoldable pub discovered : Text → Text → Option (DeviceInfo × ℤ)
  discovered local_id datagram =
      if is_empty datagram then none else peer_of local_id (parse y datagram)

  abbrev pub prepend : Option PairedDeviceInfo → List PairedDeviceInfo → List PairedDeviceInfo
  prepend none ds = ds
  prepend (some d) ds = d ∷ ds

  -- `offline_paired_devices`, on the ids that the folder holds and those of the sessions.
  unfoldable pub offline_paired_devices :
      Text → Disk → (Text → Bool) → List Text → List PairedDeviceInfo
  offline_paired_devices base d active [] = []
  offline_paired_devices base d active (id ∷ ids) =
      let rest = offline_paired_devices base d active ids in
      if active id then rest else prepend (load_paired_device y base d id) rest
