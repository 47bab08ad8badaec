-- ===== src/Ipc/Service/Commands.antt =====
-- `KdecIpcCmd` of common/src/kdec/ipc.h, and the switch of `handle_command`.
use kdeconnect_nx.Prelude.{
  ℕ, Text, not, if◌then◌else◌, Option, none, some, List, [], ◌∷◌, get_elem?,
}
use kdeconnect_nx.Json.Yyjson.{Yyjson}
use kdeconnect_nx.Client.State.{PluginHost}
use kdeconnect_nx.Client.Pairing
use kdeconnect_nx.Ipc.Listing.{Views}
use kdeconnect_nx.Ipc.Service.{
  ok, not_initialized, unknown_command, word, Request, Environment, IpcState, Reply, refuse,
}
use kdeconnect_nx.Ipc.Service.Handlers
use kdeconnect_nx.Ipc.Service.Console

pub data Command : Type 0 where
  get_api_version get_device_count get_devices request_pair accept_pair reject_pair unpair ping
        get_media_info send_media_action get_command_list run_command read_bool_setting
        write_bool_setting read_int_setting write_int_setting get_all_settings ring get_volume_sinks
        set_volume_sink send_screenshot get_memory_info send_test_notification send_broadcast
        get_version_info :
      Command

-- In the order of their numbers, from 0.
abbrev pub commands : List Command
commands =
    get_api_version ∷ get_device_count ∷ get_devices ∷ request_pair ∷ accept_pair ∷ reject_pair
    ∷ unpair ∷ ping ∷ get_media_info ∷ send_media_action ∷ get_command_list ∷ run_command
    ∷ read_bool_setting ∷ write_bool_setting ∷ read_int_setting ∷ write_int_setting
    ∷ get_all_settings ∷ ring ∷ get_volume_sinks ∷ set_volume_sink ∷ send_screenshot
    ∷ get_memory_info ∷ send_test_notification ∷ send_broadcast ∷ get_version_info ∷ []

abbrev pub kdec_ipc_api_version : ℕ
kdec_ipc_api_version = 1

module _ {y : Yyjson} (host : PluginHost y) (views : Views host.Plugin)
    (sha256_hex_upper : Text → Text) (base settings_path : Text) (e : Environment host) where
  unfoldable pub handle : Command → Request → IpcState host → Reply host
  handle get_api_version r s = (s, ok, word kdec_ipc_api_version)
  handle get_device_count r s =
      Handlers.get_device_count host views sha256_hex_upper base settings_path e r s
  handle get_devices r s =
      Handlers.list_devices host views sha256_hex_upper base settings_path e r s
  handle request_pair r s =
      Handlers.pair_command host views sha256_hex_upper base settings_path e r
        (Pairing.request_pair y host sha256_hex_upper base) s
  handle accept_pair r s =
      Handlers.pair_command host views sha256_hex_upper base settings_path e r
        (Pairing.accept_pair y host sha256_hex_upper base) s
  handle reject_pair r s =
      Handlers.pair_command host views sha256_hex_upper base settings_path e r
        (Pairing.reject_pair y host sha256_hex_upper base) s
  handle unpair r s =
      Handlers.pair_command host views sha256_hex_upper base settings_path e r
        (Pairing.unpair y host sha256_hex_upper base) s
  handle ping r s = Handlers.ping_device host views sha256_hex_upper base settings_path e r s
  handle get_media_info r s =
      Handlers.get_media_info host views sha256_hex_upper base settings_path e r s
  handle send_media_action r s =
      Handlers.send_media_action host views sha256_hex_upper base settings_path e r s
  handle get_command_list r s =
      Handlers.get_command_list host views sha256_hex_upper base settings_path e r s
  handle run_command r s = Handlers.run_command host views sha256_hex_upper base settings_path e r s
  handle read_bool_setting r s =
      Console.read_bool_setting host views sha256_hex_upper base settings_path e r s
  handle write_bool_setting r s =
      Console.write_bool_setting host views sha256_hex_upper base settings_path e r s
  handle read_int_setting r s =
      Console.read_int_setting host views sha256_hex_upper base settings_path e r s
  handle write_int_setting r s =
      Console.write_int_setting host views sha256_hex_upper base settings_path e r s
  handle get_all_settings r s =
      Console.get_all_settings host views sha256_hex_upper base settings_path e r s
  handle ring r s = Handlers.ring host views sha256_hex_upper base settings_path e r s
  handle get_volume_sinks r s =
      Handlers.get_volume_sinks host views sha256_hex_upper base settings_path e r s
  handle set_volume_sink r s =
      Handlers.set_volume_sink host views sha256_hex_upper base settings_path e r s
  handle send_screenshot r s =
      Console.send_screenshot host views sha256_hex_upper base settings_path e r s
  handle get_memory_info r s =
      Console.get_memory_info host views sha256_hex_upper base settings_path e r s
  handle send_test_notification r s =
      Console.send_test_notification host views sha256_hex_upper base settings_path e r s
  handle send_broadcast r s =
      Console.send_broadcast host views sha256_hex_upper base settings_path e r s
  handle get_version_info r s =
      Console.get_version_info host views sha256_hex_upper base settings_path e r s

  unfoldable pub handle_known : Option Command → Request → IpcState host → Reply host
  handle_known none r s = refuse host unknown_command s
  handle_known (some c) r s = handle c r s

  -- Nothing is answered while the program has no client.
  unfoldable pub handle_command : Request → IpcState host → Reply host
  unfolding handle_known handle
  handle_command r s =
      if not e.has_client
      then refuse host not_initialized s
      else handle_known (get_elem? commands r.cmd_id) r s
