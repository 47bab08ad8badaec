-- ===== src/Ipc/Listing.antt =====
-- The lists that ipc_service.cpp writes into a caller's buffer: devices, volume sinks, commands and
-- settings. A buffer is the list of the entries written; what of the plugins is read comes through
-- views of a plugin, which stand for the `dynamic_cast` of `plugin<T>()`.
pub mod Room
use kdeconnect_nx.Prelude.{
  ℕ, zero, suc, ◌+◌, ◌*◌, Text, bytes, Bool, true, false, not, Option, none, some, List, [], ◌∷◌,
  ◌++◌, if◌then◌else◌, ltb, eq_text, length,
}
use kdeconnect_nx.Prelude.Int.{ℤ, pos, negsuc}
use kdeconnect_nx.Identity.{DeviceInfo}
use kdeconnect_nx.Storage.{PairedDeviceInfo}
use kdeconnect_nx.Settings.{Settings, Store}
use kdeconnect_nx.Client.State.{
  DeviceSession, Client, PairState, not_paired, requested, requested_by_peer, paired,
}
use kdeconnect_nx.Plugins.Battery.{BatteryPlugin}
use kdeconnect_nx.Plugins.Volume.{SystemVolumePlugin, SinkState}
use kdeconnect_nx.Plugins.Mpris.{MprisPlugin}
use kdeconnect_nx.Plugins.RunCommand.{RunCommandPlugin}
use kdeconnect_nx.Ipc.Wire.{
  kdec_device_id_max, kdec_device_name_max, kdec_sink_name_max, kdec_sink_desc_max,
  kdec_command_id_max, kdec_command_name_max, strncpy,
}

-- What a plugin is, if it is that, and the plugin with its state replaced.
pub record Views (P : Type 0) : Type 0 where
  pub as_battery : P → Option BatteryPlugin
  pub as_volume : P → Option SystemVolumePlugin
  pub as_mpris : P → Option MprisPlugin
  pub as_run_command : P → Option RunCommandPlugin
  pub is_ping : P → Option (Unit {0})
  pub is_find_my_phone : P → Option (Unit {0})
  pub is_share : P → Option (Unit {0})
  pub put_mpris : MprisPlugin → P → P

unfoldable pub or_next : {T : Type 0} → Option T → Option T → Option T
or_next none next = next
or_next (some t) next = some t

-- `plugin<T>()`: the first plugin that is one.
unfoldable pub plugin : {P T : Type 0} → (P → Option T) → List P → Option T
unfolding or_next
plugin view [] = none
plugin view (p ∷ ps) = or_next (view p) (plugin view ps)

-- The loop over a source of entries of `size` bytes, with the count so far.
unfoldable pub fill : {A E : Type 0} → (A → E) → ℕ → ℕ → ℕ → List A → List E
fill entry size recv_size count [] = []
fill entry size recv_size count (a ∷ rest) =
    let more = fill entry size recv_size (suc count) rest in
    if ltb recv_size (suc count * size) then [] else entry a ∷ more

pub data DeviceType : Type 0 where
  desktop laptop phone tablet tv : DeviceType

pub data DevicePairState : Type 0 where
  none_yet requested_by_me requested_by_them is_paired : DevicePairState

pub record KdecDeviceInfo : Type 0 where
  pub id : Text
  pub name : Text
  pub type : DeviceType
  pub pair_state : DevicePairState
  pub is_connected : Bool
  pub battery_level : ℤ
  pub is_charging : Bool
  pub supports_find_my_phone : Bool
  pub supports_commands : Bool
  pub supports_volume_sinks : Bool
  pub supports_mpris_remote : Bool
  pub supports_share : Bool

-- `sizeof` of the entries, with their alignment to 16 bytes.
abbrev pub device_info_size : ℕ
device_info_size = 208

abbrev pub volume_sink_info_size : ℕ
volume_sink_info_size = 208

abbrev pub command_entry_size : ℕ
command_entry_size = 128

abbrev pub setting_entry_size : ℕ
setting_entry_size = 16

unfoldable pub device_type : Text → DeviceType
device_type type =
    if eq_text type (bytes "phone")
    then phone
    else if eq_text type (bytes "laptop")
    then laptop
    else if eq_text type (bytes "tablet")
    then tablet
    else if eq_text type (bytes "tv")
    then tv
    else desktop

unfoldable pub pair_state_of : Bool → PairState → DevicePairState
pair_state_of true s = is_paired
pair_state_of false requested_by_peer = requested_by_them
pair_state_of false requested = requested_by_me
pair_state_of false not_paired = none_yet
pair_state_of false paired = none_yet

-- One turn of the loop over the capabilities.
unfoldable pub support : KdecDeviceInfo → Text → KdecDeviceInfo
support info cap =
    if eq_text cap (bytes "kdeconnect.findmyphone.request")
    then record info { supports_find_my_phone = true }
    else if eq_text cap (bytes "kdeconnect.runcommand.request")
    then record info { supports_commands = true }
    else if eq_text cap (bytes "kdeconnect.systemvolume.request")
    then record info { supports_volume_sinks = true }
    else if eq_text cap (bytes "kdeconnect.mpris.request")
    then record info { supports_mpris_remote = true }
    else if eq_text cap (bytes "kdeconnect.share.request")
    then record info { supports_share = true }
    else info

unfoldable pub supports : List Text → KdecDeviceInfo → KdecDeviceInfo
unfolding support
supports [] info = info
supports (cap ∷ caps) info = supports caps (support info cap)

unfoldable pub read_battery : Option BatteryPlugin → KdecDeviceInfo → KdecDeviceInfo
read_battery none info = record info { battery_level = negsuc 0 }
read_battery (some b) info = record info {
  battery_level = b.cached_remote_charge;
  is_charging = b.cached_remote_charging;
}

-- `memset`, the two texts and the state of the pairing.
unfoldable pub blank_info : Text → Text → DevicePairState → KdecDeviceInfo
blank_info id name pair_state = record {
  id = strncpy kdec_device_id_max id;
  name = strncpy kdec_device_name_max name;
  type = desktop;
  pair_state = pair_state;
  is_connected = false;
  battery_level = pos 0;
  is_charging = false;
  supports_find_my_phone = false;
  supports_commands = false;
  supports_volume_sinks = false;
  supports_mpris_remote = false;
  supports_share = false;
}

module _ {P : Type 0} (views : Views P) where
  unfoldable pub session_entry : Client P → Text × ℕ → KdecDeviceInfo
  unfolding blank_info supports read_battery plugin device_type pair_state_of
  session_entry c (id, h) =
      let s = c.heap h in
      let info = blank_info id s.info.name (pair_state_of s.is_paired s.pair_state) in
      read_battery (plugin views.as_battery s.plugins) (
        supports s.info.incoming_capabilities
          (record info { type = device_type s.info.type; is_connected = not s.disconnected }))

  unfoldable pub offline_entry : PairedDeviceInfo → KdecDeviceInfo
  unfolding blank_info
  offline_entry d = record (blank_info d.info.id d.info.name is_paired) { battery_level = negsuc 0 }

  -- The two loops of `KdecIpcCmd_GetDevices`, over one count.
  unfoldable pub get_devices : Client P → List PairedDeviceInfo → ℕ → List KdecDeviceInfo
  unfolding fill session_entry offline_entry
  get_devices c offline recv_size =
      let here = fill (session_entry c) device_info_size recv_size 0 c.sessions in
      here ++ fill offline_entry device_info_size recv_size (length here) offline

pub record KdecVolumeSinkInfo : Type 0 where
  pub name : Text
  pub description : Text
  pub volume : ℤ
  pub is_muted : Bool
  pub is_default_output : Bool

unfoldable pub sink_entry : SinkState → KdecVolumeSinkInfo
sink_entry s = record {
  name = strncpy kdec_sink_name_max s.name;
  description = strncpy kdec_sink_desc_max s.description;
  volume = s.volume;
  is_muted = s.is_muted;
  is_default_output = s.is_default_output;
}

pub record KdecCommandEntry : Type 0 where
  pub id : Text
  pub name : Text

unfoldable pub command_entry : Text × Text → KdecCommandEntry
command_entry (id, name) = record {
  id = strncpy kdec_command_id_max id;
  name = strncpy kdec_command_name_max name;
}

-- `KdecWireSettingEntry`: the union does not say which of the two it holds.
pub data SettingEntry : Type 0 where
  bool_entry : ℕ → Bool → SettingEntry
  int_entry : ℕ → ℤ → SettingEntry

unfoldable pub entry_at : {V : Type 0} → (ℕ → V → SettingEntry) → ℕ → Option V → List SettingEntry
entry_at make k none = []
entry_at make k (some v) = make k v ∷ []

-- The entries of a map for so many keys, from a key on.
unfoldable pub entries_from :
    {V : Type 0} → (ℕ → V → SettingEntry) → ℕ → ℕ → Store V → List SettingEntry
unfolding entry_at
entries_from make zero k g = []
entries_from make (suc n) k g = entry_at make k (g k) ++ entries_from make n (suc k) g

-- `SettingsStore::get_all`, in the order of the keys, which are bytes.
unfoldable pub get_all : Settings → List SettingEntry
unfolding entries_from
get_all s = entries_from bool_entry 256 0 s.g_bool ++ entries_from int_entry 256 0 s.g_int
