-- ===== src/Identity.antt =====
-- sysmodule/src/net/kdeconnect_types.h and the identity packets of sysmodule/src/utils/network_util.cpp.
pub mod RoundTrip
use kdeconnect_nx.Prelude.{
  Text, bytes, Bool, true, false, Option, none, some, List, [], if◌then◌else◌,
}
use kdeconnect_nx.Prelude.Int.{ℤ, pos}
use kdeconnect_nx.Json.Yyjson.{Yyjson}
use kdeconnect_nx.Json.Body
use kdeconnect_nx.Json.Body.{JsonBody}
use kdeconnect_nx.Json.Setters.{set_int, set_str, set_str_array}
use kdeconnect_nx.Packet.{NetworkPacket, packet}

-- `kProtocolVersion`
abbrev pub k_protocol_version : ℤ
k_protocol_version = pos 8

pub record DeviceInfo : Type 0 where
  pub id : Text
  pub name : Text
  pub type : Text
  pub protocol_version : ℤ
  pub incoming_capabilities : List Text
  pub outgoing_capabilities : List Text

module _ (y : Yyjson) where
  unfoldable pub info_from_identity : NetworkPacket y → DeviceInfo
  info_from_identity p = record {
    id = Body.value_str y p.body (bytes "deviceId") [];
    name = Body.value_str y p.body (bytes "deviceName") (bytes "unknown");
    type = Body.value_str y p.body (bytes "deviceType") (bytes "desktop");
    protocol_version = Body.value_int y p.body (bytes "protocolVersion") k_protocol_version;
    incoming_capabilities =
        if Body.has y p.body (bytes "incomingCapabilities")
        then Body.get_str_array y p.body (bytes "incomingCapabilities")
        else [];
    outgoing_capabilities =
        if Body.has y p.body (bytes "outgoingCapabilities")
        then Body.get_str_array y p.body (bytes "outgoingCapabilities")
        else [];
  }

  -- `if (value) body.set(key, *value)`
  unfoldable pub set_if {ℓ} :
      {A : Type ℓ}
      → (Text → A → JsonBody y → JsonBody y)
      → Text
      → Option A
      → JsonBody y
      → JsonBody y
  set_if setter key none b = b
  set_if setter key (some a) b = setter key a b

  unfoldable pub identity_body : DeviceInfo → JsonBody y
  identity_body info = set_str_array y (bytes "outgoingCapabilities") info.outgoing_capabilities (
      set_str_array y (bytes "incomingCapabilities") info.incoming_capabilities (
        set_int y (bytes "protocolVersion") info.protocol_version (
          set_str y (bytes "deviceType") info.type (
            set_str y (bytes "deviceName") info.name
              (set_str y (bytes "deviceId") info.id (Body.empty y))))))

  unfoldable pub make_identity_packet :
      DeviceInfo → Option Text → Option ℤ → Option ℤ → NetworkPacket y
  unfolding identity_body set_if
  make_identity_packet info target_id target_protocol tcp_port =
      packet y (bytes "kdeconnect.identity") (
        set_if (set_int y) (bytes "tcpPort") tcp_port (
          set_if (set_int y) (bytes "targetProtocolVersion") target_protocol
            (set_if (set_str y) (bytes "targetDeviceId") target_id (identity_body info))))
