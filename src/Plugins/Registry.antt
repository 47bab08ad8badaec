-- ===== src/Plugins/Registry.antt =====
-- plugins/plugin_registry.cpp: the plugins in their order, and the types of the packets that they take
-- and send, which a device announces in its identity (`load_or_create_local_device` of
-- utils/storage.cpp, on the given name).
pub mod Types
use kdeconnect_nx.Prelude.{Text, bytes, Bool, ◌&&◌, List, [], ◌∷◌, ◌++◌, if◌then◌else◌, is_empty}
use kdeconnect_nx.Identity.{DeviceInfo, k_protocol_version}

pub data PluginClass : Type 0 where
  ping battery notification find_my_phone mpris system_volume share run_command mousepad :
      PluginClass

unfoldable pub supported_packet_types : PluginClass → List Text
supported_packet_types ping = bytes "kdeconnect.ping" ∷ []
supported_packet_types battery =
    bytes "kdeconnect.battery" ∷ bytes "kdeconnect.battery.request" ∷ []
supported_packet_types notification = bytes "kdeconnect.notification" ∷ []
supported_packet_types find_my_phone = []
supported_packet_types mpris = bytes "kdeconnect.mpris" ∷ bytes "kdeconnect.mpris.request" ∷ []
supported_packet_types system_volume =
    bytes "kdeconnect.systemvolume.request" ∷ bytes "kdeconnect.systemvolume" ∷ []
supported_packet_types share = bytes "kdeconnect.share.request" ∷ []
supported_packet_types run_command =
    bytes "kdeconnect.runcommand.request" ∷ bytes "kdeconnect.runcommand" ∷ []
supported_packet_types mousepad = bytes "kdeconnect.mousepad.request" ∷ []

unfoldable pub outgoing_packet_types : PluginClass → List Text
outgoing_packet_types ping = bytes "kdeconnect.ping" ∷ []
outgoing_packet_types battery = bytes "kdeconnect.battery" ∷ []
outgoing_packet_types notification = bytes "kdeconnect.notification.request" ∷ []
outgoing_packet_types find_my_phone = bytes "kdeconnect.findmyphone.request" ∷ []
outgoing_packet_types mpris = bytes "kdeconnect.mpris.request" ∷ bytes "kdeconnect.mpris" ∷ []
outgoing_packet_types system_volume =
    bytes "kdeconnect.systemvolume" ∷ bytes "kdeconnect.systemvolume.request" ∷ []
outgoing_packet_types share = bytes "kdeconnect.share.request" ∷ []
outgoing_packet_types run_command =
    bytes "kdeconnect.runcommand" ∷ bytes "kdeconnect.runcommand.request" ∷ []
outgoing_packet_types mousepad =
    bytes "kdeconnect.mousepad.echo" ∷ bytes "kdeconnect.mousepad.keyboardstate" ∷ []

abbrev pub instantiate_plugins : List PluginClass
instantiate_plugins =
    ping ∷ battery ∷ notification ∷ find_my_phone ∷ mpris ∷ system_volume ∷ share ∷ run_command
    ∷ mousepad ∷ []

-- The two static lists.
pub record Capabilities : Type 0 where
  pub caps : List Text
  pub caps_out : List Text

-- The loop over the plugins: what each of them adds.
unfoldable pub all_types : (PluginClass → List Text) → List PluginClass → List Text
all_types types [] = []
all_types types (p ∷ ps) = types p ++ all_types types ps

unfoldable pub load_supported_types : Capabilities → Capabilities
load_supported_types c =
    if is_empty c.caps && is_empty c.caps_out
    then record {
      caps = c.caps ++ all_types supported_packet_types instantiate_plugins;
      caps_out = c.caps_out ++ all_types outgoing_packet_types instantiate_plugins;
    }
    else c

-- The id is set later, from the certificate.
unfoldable pub load_or_create_local_device : Text → Capabilities → Capabilities × DeviceInfo
load_or_create_local_device name c =
    let c1 = load_supported_types c in
    let c2 = load_supported_types c1 in
    (
      c2,
      record {
        id = [];
        name = name;
        type = bytes "tablet";
        protocol_version = k_protocol_version;
        incoming_capabilities = c1.caps ++ bytes "kdeconnect.pair" ∷ [];
        outgoing_capabilities = c2.caps_out ++ bytes "kdeconnect.pair" ∷ [];
      },
    )
