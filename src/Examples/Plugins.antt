-- ===== src/Examples/Plugins.antt =====
-- The plugins at concrete packets.
use kdeconnect_nx.Prelude.{Text, bytes, Bool, true, false, [], ◌∷◌, arith}
use kdeconnect_nx.Prelude.Int.{pos, negsuc}
use kdeconnect_nx.Json.Body
use kdeconnect_nx.Json.Body.{JsonBody}
use kdeconnect_nx.Json.Setters.{set_bool, set_i64, set_str}
use kdeconnect_nx.Packet.{NetworkPacket, packet}
use kdeconnect_nx.Plugins.Volume
use kdeconnect_nx.Plugins.Volume.{SinkState, SystemVolumePlugin, percent, raw_level, refresh}
use kdeconnect_nx.Plugins.Mpris.{MprisPlugin, no_state}
use kdeconnect_nx.Plugins.Mpris.Updates.{
  IsTimed, arrives, seeks, handle_events, handle_events-IsTimed,
}
use kdeconnect_nx.Plugins.Battery.{BatteryPlugin}
use kdeconnect_nx.Examples.TreeJson.{tree_json}

abbrev headphones : SinkState
headphones = record {
  name = bytes "headphones";
  description = [];
  volume = pos 10;
  max_volume = pos 65536;
  is_muted = false;
  is_default_output = false;
}

abbrev volumes : SystemVolumePlugin
volumes = record { volume = pos 50; muted = false; remote_sinks = headphones ∷ []; set_calls = [] }

abbrev mute : NetworkPacket tree_json
mute = packet tree_json (bytes "kdeconnect.systemvolume.request") (
    set_str tree_json (bytes "name") (bytes "Output")
      (set_bool tree_json (bytes "muted") true (Body.empty tree_json)))

-- A song of three minutes, of which 20 seconds have been played at second 100 of the clock.
abbrev player : MprisPlugin
player = record {
  player_list = bytes "vlc" ∷ [];
  current_player = bytes "vlc";
  state = record no_state {
    is_playing = true;
    position = pos 20000;
    last_position_time_ms = pos 100000;
    length = pos 180000;
  };
  seek_lock_until_ms = pos 0;
  art_calls = [];
}

-- The position is unknown, and the player is another one in the second packet.
abbrev status_of : Text → NetworkPacket tree_json
status_of name = packet tree_json (bytes "kdeconnect.mpris") (
    set_str tree_json (bytes "player") name
      (set_i64 tree_json (bytes "pos") (negsuc 0) (Body.empty tree_json)))

abbrev hashed : Text → Text
hashed url = url

abbrev no_image : Text → Bool
no_image hash = false

handle_events-IsTimed_example :
    IsTimed
      (handle_events tree_json hashed no_image
        (arrives (pos 101000) (status_of (bytes "vlc"))
          ∷ seeks (pos 102000) (bytes "vlc") (pos 5000)
          ∷ [])
        player).state
handle_events-IsTimed_example =
    handle_events-IsTimed tree_json hashed no_image
      (arrives (pos 101000) (status_of (bytes "vlc"))
        ∷ seeks (pos 102000) (bytes "vlc") (pos 5000)
        ∷ [])
      player (omega arith, omega arith) (tt, (omega arith, tt))

abbrev hello : JsonBody tree_json
hello = set_str tree_json (bytes "key") (bytes "Hi!") (Body.empty tree_json)

abbrev battery : BatteryPlugin
battery = record {
  cached_charge = pos 16;
  cached_charging = false;
  cache_valid = true;
  cached_remote_charge = negsuc 0;
  cached_remote_charging = false;
  active = true;
  notified_low = false;
  last_poll = pos 0;
}
