-- ===== src/Ipc/Requests.antt =====
-- common/src/kdec/ipc_client.cpp: what the overlay asks, as the request that the service sees. The
-- transport of libnx may put more bytes behind the data.
use kdeconnect_nx.Prelude.{
  ℕ, ◌*◌, Text, Bool, Option, none, some, List, [], ◌∷◌, ◌++◌, take, length, ltb, if◌then◌else◌,
}
use kdeconnect_nx.Prelude.Int.{ℤ}
use kdeconnect_nx.Ipc.Wire.{
  wire_device_id, wire_run_command, wire_write_bool, wire_write_int, wire_send_media_action,
  wire_set_volume_sink,
}
use kdeconnect_nx.Ipc.Listing.{
  device_info_size, volume_sink_info_size, command_entry_size, setting_entry_size,
}
use kdeconnect_nx.Ipc.Service.{Request}

-- `serviceDispatchIn` and the like, with the size of the buffer for the answer.
abbrev pub dispatch : ℕ → Option ℕ → Text → Text → Request
dispatch cmd_id recv_size wire padding = record {
  cmd_id = cmd_id;
  input = wire ++ padding;
  recv_size = recv_size;
}

abbrev pub k_max_devices : ℕ
k_max_devices = 16

abbrev pub k_max_commands : ℕ
k_max_commands = 256

abbrev pub k_max_volume_sinks : ℕ
k_max_volume_sinks = 16

abbrev pub k_max_settings : ℕ
k_max_settings = 13

module _ (padding : Text) where
  abbrev pub kdec_ipc_get_devices : Request
  kdec_ipc_get_devices = dispatch 2 (some (k_max_devices * device_info_size)) [] padding

  abbrev pub kdec_ipc_request_pair : Text → Request
  kdec_ipc_request_pair device_id = dispatch 3 none (wire_device_id device_id) padding

  abbrev pub kdec_ipc_accept_pair : Text → Request
  kdec_ipc_accept_pair device_id = dispatch 4 none (wire_device_id device_id) padding

  abbrev pub kdec_ipc_reject_pair : Text → Request
  kdec_ipc_reject_pair device_id = dispatch 5 none (wire_device_id device_id) padding

  abbrev pub kdec_ipc_unpair : Text → Request
  kdec_ipc_unpair device_id = dispatch 6 none (wire_device_id device_id) padding

  abbrev pub kdec_ipc_ping : Text → Request
  kdec_ipc_ping device_id = dispatch 7 none (wire_device_id device_id) padding

  abbrev pub kdec_ipc_get_media_info : Text → Request
  kdec_ipc_get_media_info device_id = dispatch 8 (some 1136) (wire_device_id device_id) padding

  abbrev pub kdec_ipc_send_media_action : Text → ℕ → ℤ → Request
  kdec_ipc_send_media_action device_id action value =
      dispatch 9 none (wire_send_media_action device_id action value) padding

  abbrev pub kdec_ipc_get_command_list : Text → Request
  kdec_ipc_get_command_list device_id =
      dispatch 10 (some (k_max_commands * command_entry_size)) (wire_device_id device_id) padding

  abbrev pub kdec_ipc_run_command : Text → Text → Request
  kdec_ipc_run_command device_id command_id =
      dispatch 11 none (wire_run_command device_id command_id) padding

  abbrev pub kdec_ipc_read_bool_setting : ℕ → Request
  kdec_ipc_read_bool_setting key = dispatch 12 none (key ∷ []) padding

  abbrev pub kdec_ipc_write_bool_setting : ℕ → Bool → Request
  kdec_ipc_write_bool_setting key value = dispatch 13 none (wire_write_bool key value) padding

  abbrev pub kdec_ipc_read_int_setting : ℕ → Request
  kdec_ipc_read_int_setting key = dispatch 14 none (key ∷ []) padding

  abbrev pub kdec_ipc_write_int_setting : ℕ → ℤ → Request
  kdec_ipc_write_int_setting key value = dispatch 15 none (wire_write_int key value) padding

  abbrev pub kdec_ipc_get_all_settings : Request
  kdec_ipc_get_all_settings = dispatch 16 (some (k_max_settings * setting_entry_size)) [] padding

  abbrev pub kdec_ipc_ring : Text → Request
  kdec_ipc_ring device_id = dispatch 17 none (wire_device_id device_id) padding

  abbrev pub kdec_ipc_get_volume_sinks : Text → Request
  kdec_ipc_get_volume_sinks device_id =
      dispatch 18 (some (k_max_volume_sinks * volume_sink_info_size)) (wire_device_id device_id)
        padding

  abbrev pub kdec_ipc_set_volume_sink : Text → Text → ℤ → Bool → Bool → Request
  kdec_ipc_set_volume_sink device_id sink_name volume muted is_default_output =
      dispatch 19 none (wire_set_volume_sink device_id sink_name volume muted is_default_output)
        padding

  abbrev pub kdec_ipc_send_screenshot : Text → Request
  kdec_ipc_send_screenshot device_id = dispatch 20 none (wire_device_id device_id) padding

  abbrev pub kdec_ipc_send_test_notification : Request
  kdec_ipc_send_test_notification = dispatch 22 none [] padding

  abbrev pub kdec_ipc_send_broadcast : Request
  kdec_ipc_send_broadcast = dispatch 23 none [] padding

-- `if (count > kMax) count = kMax; out.assign(buf, buf + count)`
unfoldable pub assign_out : {E : Type 0} → ℕ → List E → List E
assign_out max buf = take (if ltb max (length buf) then max else length buf) buf
