-- ===== src/Ipc/Service.antt =====
-- sysmodule/src/ipc/ipc_service.cpp: `handle_command`, by handlers. The client, the settings and the
-- counter of the test notifications are the state. What is not of this program is asked of the
-- environment: the clocks, the names in the folder of the devices, the memory and the screenshot.
pub mod Handlers
pub mod Console
pub mod Commands
pub mod Refused
pub mod Media
pub mod Calls
pub mod Preferences
use kdeconnect_nx.Prelude.{
  ℕ, suc, ◌+◌, ◌%◌, ◌^◌, ◌/◌, Text, bytes, Bool, true, false, not, ◌||◌, Option, none, some, List,
  [], ◌∷◌, ◌++◌, ◌==◌, if◌then◌else◌, ltb, leb, get_elem?, is_empty, is_some, length,
}
use kdeconnect_nx.Prelude.Int.{ℤ, pos, wrap32, ltb_ℤ}
use kdeconnect_nx.Json.Yyjson.{Yyjson}
use kdeconnect_nx.Packet.{NetworkPacket}
use kdeconnect_nx.Settings.{
  Settings, bool_settings, int_settings, get_bool_key, get_int_key, set_bool_key, set_int_key,
}
use kdeconnect_nx.Storage.{PairedDeviceInfo}
use kdeconnect_nx.Storage.Folder.{list_paired_device_ids}
use kdeconnect_nx.Client.State.{PluginHost, DeviceSession, Client, Now, device, update}
use kdeconnect_nx.Client.Send.{send_packet}
use kdeconnect_nx.Client.Pairing.{request_pair, accept_pair, reject_pair, unpair}
use kdeconnect_nx.Client.Discovery.{offline_paired_devices}
use kdeconnect_nx.Plugins.Volume.{SystemVolumePlugin, set_remote_sink}
use kdeconnect_nx.Plugins.Mpris.{
  MprisPlugin, PlayerState, player_state, send_action, set_volume, seek, set_position,
}
use kdeconnect_nx.Plugins.RunCommand.{RunCommandPlugin, run_remote_command, local_command_list}
use kdeconnect_nx.Plugins.Ping.{ping, find}
use kdeconnect_nx.Ipc.Wire.{
  kdec_device_id_max, kdec_sink_name_max, kdec_command_id_max, kdec_text_max, strncpy, field_text,
  field_byte, field_bool, field_int32, field_int64,
}
use kdeconnect_nx.Ipc.Listing.{
  Views, plugin, fill, KdecDeviceInfo, get_devices, KdecVolumeSinkInfo, sink_entry,
  volume_sink_info_size, KdecCommandEntry, command_entry, command_entry_size, SettingEntry,
  setting_entry_size, get_all,
}

-- `Result`: success, the errors of libnx that are returned, and 1.
pub data Code : Type 0 where
  ok bad_input not_found not_initialized io_error unknown_command : Code

pub record KdecMediaInfo : Type 0 where
  pub device_id : Text
  pub player : Text
  pub title : Text
  pub artist : Text
  pub album : Text
  pub position : ℤ
  pub length : ℤ
  pub volume : ℤ
  pub is_playing : Bool
  pub can_play : Bool
  pub can_pause : Bool
  pub can_go_next : Bool
  pub can_go_previous : Bool
  pub can_seek : Bool
  pub album_art_hash : Text

pub record KdecMemoryInfo : Type 0 where
  pub proc_used_kb : ℕ
  pub socket_tmem_kb : ℕ
  pub heap_used_kb : ℕ
  pub heap_total_kb : ℕ
  pub heap_max_kb : ℕ

pub record KdecVersionInfo : Type 0 where
  pub version : Text
  pub git_commit : Text
  pub is_debug : Bool

-- What the caller gets: `out_data`, or the entries of its buffer with their number as `out_data`.
pub data Out : Type 0 where
  nothing : Out
  word : ℕ → Out
  flag : Bool → Out
  int : ℤ → Out
  device_infos : List KdecDeviceInfo → Out
  sink_infos : List KdecVolumeSinkInfo → Out
  command_entries : List KdecCommandEntry → Out
  media_info : Option KdecMediaInfo → Out
  setting_entries : List SettingEntry → Out
  memory_info : KdecMemoryInfo → Out
  version_info : KdecVersionInfo → Out

-- `IpcServerRequest`: the number of the command, its data, and the size of the first buffer for the
-- answer, if there is one.
pub record Request : Type 0 where
  pub cmd_id : ℕ
  pub input : Text
  pub recv_size : Option ℕ

module _ {y : Yyjson} (host : PluginHost y) where
  open host use {Plugin}

  pub record Environment : Type 0 where
    pub has_client : Bool
    pub now : Now
    pub steady_ms : ℤ
    pub folder : List Text
    pub used_memory : ℕ
    pub transfer_memory : ℕ
    pub heap_in_use : ℕ
    pub heap_free : ℕ
    pub heap_size : ℕ
    pub version : Text
    pub git_commit : Text
    pub is_debug : Bool
    pub send_screenshot : Text → Client Plugin → Client Plugin × Bool

  pub record IpcState : Type 0 where
    pub client : Client Plugin
    pub settings : Settings
    pub posted_tests : List Text
    pub test_notification_id : ℕ
    pub broadcasts : ℕ

  abbrev pub Reply : Type 0
  Reply = IpcState × Code × Out

  abbrev pub refuse : Code → IpcState → Reply
  refuse code s = (s, code, nothing)

  abbrev pub done : IpcState → Reply
  done s = (s, ok, nothing)

  unfoldable pub found_plugin : {T : Type 0} → IpcState → Option T → (T → Reply) → Reply
  found_plugin s none k = refuse not_found s
  found_plugin s (some t) k = k t

  unfoldable pub found_session :
      {T : Type 0} → (Plugin → Option T) → IpcState → Option ℕ → (ℕ → T → Reply) → Reply
  unfolding found_plugin
  found_session view s none k = refuse not_found s
  found_session view s (some h) k = found_plugin s (plugin view (s.client.heap h).plugins) (k h)

  -- `client->device(id_str)` and `sess->plugin<T>()`.
  unfoldable pub with_plugin :
      {T : Type 0} → (Plugin → Option T) → Text → IpcState → (ℕ → T → Reply) → Reply
  unfolding found_session
  with_plugin view id s k = found_session view s (device s.client id) k

  -- `Plugin::send_packet` of a plugin of the session.
  unfoldable pub send_from : Environment → ℕ → NetworkPacket y → IpcState → IpcState
  send_from e h p s = record s {
    client = (send_packet y host e.now (s.client.heap h).info.id p s.client).0;
  }

  unfoldable pub requested_id : Request → Text
  requested_id r = field_text 0 kdec_device_id_max r.input

  -- `r->data.size < sizeof(…)`
  abbrev pub sized : ℕ → Request → IpcState → Reply → Reply
  sized size r s reply = if ltb (length r.input) size then refuse bad_input s else reply

  -- `hipc.meta.num_recv_buffers < 1`
  unfoldable pub buffered : Option ℕ → IpcState → (ℕ → Reply) → Reply
  buffered none s reply = refuse bad_input s
  buffered (some recv_size) s reply = reply recv_size
