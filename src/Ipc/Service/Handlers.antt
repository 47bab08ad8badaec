-- ===== src/Ipc/Service/Handlers.antt =====
-- The cases of `handle_command` of sysmodule/src/ipc/ipc_service.cpp that are about devices and their
-- plugins, each with its checks.
use kdeconnect_nx.Prelude.{
  ℕ, ◌+◌, ◌%◌, ◌^◌, Text, bytes, ◌&&◌, Option, none, some, List, [], ◌∷◌, ◌==◌, if◌then◌else◌, ltb,
  is_empty, is_some, length,
}
use kdeconnect_nx.Prelude.Int.{ℤ, pos, wrap32, ltb_ℤ}
use kdeconnect_nx.Json.Yyjson.{Yyjson}
use kdeconnect_nx.Packet.{NetworkPacket}
use kdeconnect_nx.Storage.{PairedDeviceInfo}
use kdeconnect_nx.Storage.Folder.{list_paired_device_ids}
use kdeconnect_nx.Client.State.{PluginHost, Client, Now, device, update}
use kdeconnect_nx.Client.Discovery.{offline_paired_devices}
use kdeconnect_nx.Plugins.Volume.{set_remote_sink}
use kdeconnect_nx.Plugins.Mpris.{
  MprisPlugin, PlayerState, player_state, send_action, set_volume, seek, set_position,
}
use kdeconnect_nx.Plugins.RunCommand.{run_remote_command}
use kdeconnect_nx.Plugins.Ping.{ping, find}
use kdeconnect_nx.Ipc.Wire.{
  kdec_device_id_max, kdec_sink_name_max, kdec_command_id_max, kdec_text_max, strncpy, field_text,
  field_byte, field_bool, field_int32, field_int64,
}
use kdeconnect_nx.Ipc.Listing.{
  Views, plugin, fill, get_devices, sink_entry, volume_sink_info_size, command_entry,
  command_entry_size,
}
use kdeconnect_nx.Ipc.Service.{
  ok, KdecMediaInfo, word, device_infos, sink_infos, command_entries, media_info, Request,
  Environment, IpcState, Reply, done, with_plugin, send_from, requested_id, sized, buffered,
}

abbrev pub media_info_size : ℕ
media_info_size = 1136

-- What `KdecIpcCmd_GetMediaInfo` writes for a player.
unfoldable pub media_of : Text → Text → PlayerState → KdecMediaInfo
media_of id player state = record {
  device_id = strncpy kdec_device_id_max id;
  player = strncpy kdec_text_max player;
  title = strncpy kdec_text_max state.title;
  artist = strncpy kdec_text_max state.artist;
  album = strncpy kdec_text_max state.album;
  position = state.position;
  length = state.length;
  volume = state.volume;
  is_playing = state.is_playing;
  can_play = state.can_play;
  can_pause = state.can_pause;
  can_go_next = state.can_go_next;
  can_go_previous = state.can_go_previous;
  can_seek = state.can_seek && ltb_ℤ (pos 0) state.length;
  album_art_hash = strncpy 17 state.album_art_hash;
}

unfoldable pub media_of_player : ℤ → Text → Option MprisPlugin → Option KdecMediaInfo
unfolding media_of
media_of_player now_ms id none = none
media_of_player now_ms id (some p) =
    if is_empty p.current_player
    then none
    else some (media_of id p.current_player (player_state now_ms p))

module _ {P : Type 0} (views : Views P) where
  unfoldable pub mpris_of : Client P → Option ℕ → Option MprisPlugin
  mpris_of c none = none
  mpris_of c (some h) = plugin views.as_mpris (c.heap h).plugins

  -- `set_position` changes the plugin where it is.
  unfoldable pub put_first : MprisPlugin → List P → List P
  put_first p [] = []
  put_first p (q ∷ qs) =
      let rest = put_first p qs in
      if is_some (views.as_mpris q) then views.put_mpris p q ∷ qs else q ∷ rest

module _ {y : Yyjson} (host : PluginHost y) (views : Views host.Plugin)
    (sha256_hex_upper : Text → Text) (base settings_path : Text) (e : Environment host)
    (r : Request) where
  abbrev id_str : Text
  id_str = requested_id host r

  unfoldable pub offline : IpcState host → List PairedDeviceInfo
  offline s =
      offline_paired_devices y base s.client.disk (λ id. is_some (device s.client id))
        (list_paired_device_ids e.folder)

  unfoldable pub get_device_count : IpcState host → Reply host
  unfolding offline
  get_device_count s = (s, ok, word ((length s.client.sessions + length (offline s)) % 2 ^ 32))

  unfoldable pub list_devices : IpcState host → Reply host
  unfolding offline
  list_devices s =
      buffered host r.recv_size s
        λ recv_size. (s, ok, device_infos (get_devices views s.client (offline s) recv_size))

  -- The four commands of pairing differ in what is called.
  unfoldable pub pair_command :
      (Now → Text → Client host.Plugin → Client host.Plugin) → IpcState host → Reply host
  pair_command call s =
      sized host 64 r s (done host (record s { client = call e.now id_str s.client }))

  unfoldable pub ping_device : IpcState host → Reply host
  ping_device s =
      sized host 64 r s (
        with_plugin host views.is_ping id_str s λ h p. done host (send_from host e h (ping y []) s))

  unfoldable pub ring : IpcState host → Reply host
  ring s = sized host 64 r s (
      with_plugin host views.is_find_my_phone id_str s
        λ h p. done host (send_from host e h (find y) s))

  unfoldable pub get_volume_sinks : IpcState host → Reply host
  get_volume_sinks s = buffered host r.recv_size s λ recv_size. sized host 64 r s (
      with_plugin host views.as_volume id_str s λ h p.
        (s, ok, sink_infos (fill sink_entry volume_sink_info_size recv_size 0 p.remote_sinks)))

  unfoldable pub set_volume_sink : IpcState host → Reply host
  set_volume_sink s = sized host 144 r s (
      with_plugin host views.as_volume id_str s λ h p.
        let sink_str = field_text 64 kdec_sink_name_max r.input in
        done host (
          send_from host e h
            (set_remote_sink y sink_str (field_int32 128 r.input) (field_bool 132 r.input)
              (field_bool 133 r.input) p)
            s))

  unfoldable pub get_media_info : IpcState host → Reply host
  unfolding media_of_player mpris_of
  get_media_info s = buffered host r.recv_size s λ recv_size. sized host 64 r s (
      let found =
        media_of_player e.steady_ms id_str (mpris_of views s.client (device s.client id_str)) in
      (s, ok, media_info (if ltb recv_size media_info_size then none else found)))

  unfoldable pub move_player : Text → ℤ → ℕ → MprisPlugin → IpcState host → IpcState host
  unfolding put_first
  move_player player value h p s =
      let (p', packet) = set_position y e.steady_ms player value p in
      let s1 = send_from host e h packet s in
      record s1 {
        client = update h (λ t. record t { plugins = put_first views p' t.plugins }) s1.client;
      }

  -- The switch over the action, by the numbers of `KdecMediaAction`.
  unfoldable pub media_action : ℕ → Text → ℤ → ℕ → MprisPlugin → IpcState host → IpcState host
  unfolding move_player
  media_action action player value h p s =
      let send = λ (q : NetworkPacket y). send_from host e h q s in
      if action == 0
      then send (send_action y player (bytes "Play"))
      else if action == 1
      then send (send_action y player (bytes "Pause"))
      else if action == 2
      then send (send_action y player (bytes "PlayPause"))
      else if action == 3
      then send (send_action y player (bytes "Stop"))
      else if action == 4
      then send (send_action y player (bytes "Next"))
      else if action == 5
      then send (send_action y player (bytes "Previous"))
      else if action == 6
      then send (set_volume y player (wrap32 value))
      else if action == 7
      then send (seek y player value)
      else if action == 8
      then move_player player value h p s
      else s

  unfoldable pub send_media_action : IpcState host → Reply host
  unfolding media_action
  send_media_action s = sized host 80 r s (
      with_plugin host views.as_mpris id_str s λ h p.
        if is_empty p.current_player
        then done host s
        else done host
            (media_action (field_byte 64 r.input) p.current_player (field_int64 72 r.input) h p s))

  unfoldable pub get_command_list : IpcState host → Reply host
  get_command_list s = buffered host r.recv_size s λ recv_size. sized host 64 r s (
      with_plugin host views.as_run_command id_str s λ h p. (
        s,
        ok,
        command_entries (fill command_entry command_entry_size recv_size 0 p.remote_commands),
      ))

  unfoldable pub run_command : IpcState host → Reply host
  run_command s = sized host 128 r s (
      with_plugin host views.as_run_command id_str s λ h p.
        done host
          (send_from host e h (run_remote_command y (field_text 64 kdec_command_id_max r.input)) s))
