-- ===== src/Ipc/Service/Console.antt =====
-- The cases of `handle_command` of sysmodule/src/ipc/ipc_service.cpp that are not about a plugin's
-- state: the settings, the screenshot, the memory, the test notification, the broadcast and the version.
use kdeconnect_nx.Prelude.{
  ℕ, ◌+◌, ◌%◌, ◌^◌, ◌/◌, Text, bytes, List, [], ◌∷◌, ◌++◌, ◌==◌, if◌then◌else◌, leb, is_some,
}
use kdeconnect_nx.Prelude.Int.{pos}
use kdeconnect_nx.Json.Yyjson.{Yyjson}
use kdeconnect_nx.Settings.{get_bool_key, get_int_key, set_bool_key, set_int_key}
use kdeconnect_nx.Client.State.{PluginHost}
use kdeconnect_nx.Client.Key.{to_string}
use kdeconnect_nx.Plugins.Mpris.{}
use kdeconnect_nx.Plugins.RunCommand.{local_command_list}
use kdeconnect_nx.Ipc.Wire.{strncpy, field_byte, field_bool, field_int32}
use kdeconnect_nx.Ipc.Listing.{Views, plugin, fill, setting_entry_size, get_all}
use kdeconnect_nx.Ipc.Service.{
  ok, not_found, io_error, nothing, flag, int, setting_entries, memory_info, version_info, Request,
  Environment, IpcState, Reply, refuse, done, with_plugin, send_from, requested_id, sized, buffered,
}

abbrev pub bool_setting_count : ℕ
bool_setting_count = 9

abbrev pub int_setting_count : ℕ
int_setting_count = 4

-- `KdecBoolSettingKey::RunCommandPowerCommandsEnabled`
abbrev pub power_commands_key : ℕ
power_commands_key = 6

module _ {y : Yyjson} (host : PluginHost y) (views : Views host.Plugin)
    (sha256_hex_upper : Text → Text) (base settings_path : Text) (e : Environment host)
    (r : Request) where
  abbrev id_str : Text
  id_str = requested_id host r

  unfoldable pub read_bool_setting : IpcState host → Reply host
  read_bool_setting s = sized host 1 r s (
      let key = field_byte 0 r.input in
      if leb bool_setting_count key
      then refuse host not_found s
      else (s, ok, flag (get_bool_key key s.settings)))

  -- The list of the console's commands goes to every session that has the plugin.
  unfoldable pub resend_lists : List (Text × ℕ) → IpcState host → IpcState host
  resend_lists [] s = s
  resend_lists ((id, h) ∷ rest) s =
      let p = local_command_list y (get_bool_key power_commands_key s.settings) in
      let has = is_some (plugin views.as_run_command (s.client.heap h).plugins) in
      resend_lists rest (if has then send_from host e h p s else s)

  unfoldable pub write_bool_setting : IpcState host → Reply host
  unfolding resend_lists
  write_bool_setting s = sized host 2 r s (
      let key = field_byte 0 r.input in
      let (settings, disk) =
        set_bool_key y settings_path key (field_bool 1 r.input) s.settings s.client.disk in
      let s1 : IpcState host = record s {
        settings = settings;
        client = record s.client { disk = disk };
      } in
      done host (if key == power_commands_key then resend_lists s1.client.sessions s1 else s1))

  unfoldable pub read_int_setting : IpcState host → Reply host
  read_int_setting s = sized host 1 r s (
      let key = field_byte 0 r.input in
      if leb int_setting_count key
      then refuse host not_found s
      else (s, ok, int (get_int_key key s.settings)))

  unfoldable pub write_int_setting : IpcState host → Reply host
  write_int_setting s = sized host 8 r s (
      let (settings, disk) =
        set_int_key y settings_path (field_byte 0 r.input) (field_int32 4 r.input) s.settings
          s.client.disk in
      done host (record s { settings = settings; client = record s.client { disk = disk } }))

  unfoldable pub get_all_settings : IpcState host → Reply host
  get_all_settings s = buffered host r.recv_size s λ recv_size.
      (s, ok, setting_entries (fill (λ x. x) setting_entry_size recv_size 0 (get_all s.settings)))

  unfoldable pub send_screenshot : IpcState host → Reply host
  send_screenshot s = sized host 64 r s (
      with_plugin host views.is_share id_str s λ h p.
        let (c, sent) = e.send_screenshot id_str s.client in
        (record s { client = c }, (if sent then ok else io_error), nothing))

  unfoldable pub get_memory_info : IpcState host → Reply host
  get_memory_info s = (
    s,
    ok,
    memory_info (record {
      proc_used_kb = e.used_memory / 1024;
      socket_tmem_kb = e.transfer_memory / 1024;
      heap_used_kb = e.heap_in_use / 1024;
      heap_total_kb = (e.heap_in_use + e.heap_free) / 1024;
      heap_max_kb = e.heap_size / 1024;
    }),
  )

  -- `NotificationPlugin::post_app_notification` under the id `test` and the count.
  unfoldable pub send_test_notification : IpcState host → Reply host
  send_test_notification s = done host (record s {
    posted_tests = (bytes "test" ++ to_string (pos s.test_notification_id)) ∷ s.posted_tests;
    test_notification_id = (s.test_notification_id + 1) % 2 ^ 32;
  })

  unfoldable pub send_broadcast : IpcState host → Reply host
  send_broadcast s = done host (record s { broadcasts = s.broadcasts + 1 })

  unfoldable pub get_version_info : IpcState host → Reply host
  get_version_info s = (
    s,
    ok,
    version_info (record {
      version = strncpy 32 e.version;
      git_commit = strncpy 16 e.git_commit;
      is_debug = e.is_debug;
    }),
  )
