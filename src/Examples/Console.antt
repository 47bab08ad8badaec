-- ===== src/Examples/Console.antt =====
-- Settings and commands at concrete inputs.
use kdeconnect_nx.Prelude.{Text, bytes, true, false, if◌then◌else◌, ◌==◌, [], ◌≡◌, refl, arith}
use kdeconnect_nx.Json.Body
use kdeconnect_nx.Json.Body.{upsert}
use kdeconnect_nx.Json.Setters.{set_bool, set_int, set_str, set_obj, dump}
use kdeconnect_nx.Packet.{NetworkPacket, packet}
use kdeconnect_nx.Settings.{
  Settings, no_settings, assign, get_bool_key, get_int_key, load, set_bool_key, settings_body,
  put_bools, put_ints,
}
use kdeconnect_nx.Settings.Changes.{to_flag, set_key, set_key-load}
use kdeconnect_nx.Json.Written.{Writes}
use kdeconnect_nx.Plugins.RunCommand.{RunCommandPlugin, on_packet_received}
use kdeconnect_nx.Plugins.RunCommand.Power.{RunsAllowed, on_packet_received-RunsAllowed}
use kdeconnect_nx.Examples.TreeJson.{tree_json}
use kdeconnect_nx.Examples.Devices.{blank}

-- The notification on a connection is switched on, on an empty disk.
abbrev changed : Settings
changed = record no_settings { g_bool = assign 1 true no_settings.g_bool }

abbrev changed_text : Text
changed_text = dump tree_json true (settings_body tree_json changed)

changed-Writes :
    Writes tree_json true
      (settings_body tree_json (set_bool_key tree_json (bytes "/s") 1 true no_settings blank).0)
      changed_text
unfolding set_bool_key settings_body put_bools put_ints set_bool set_int set_obj upsert dump assign
changed-Writes = refl

set_key-load_example :
    (get_bool_key 1 (
        load tree_json
          (bytes "/s")
          (set_key tree_json (bytes "/s") (to_flag 1 true) no_settings blank).1
          no_settings)
      ≡ (if 1 == 1 then true else get_bool_key 1 no_settings))
    × (get_int_key 2 (
          load tree_json
            (bytes "/s")
            (set_key tree_json (bytes "/s") (to_flag 1 true) no_settings blank).1
            no_settings)
        ≡ get_int_key 2 no_settings)
unfolding set_bool_key
set_key-load_example =
    set_key-load tree_json (bytes "/s") (to_flag 1 true) no_settings blank changed_text 1 2 refl
      changed-Writes (λ n h. cc) (omega arith) (omega arith)

-- The other device asks for a reboot, while the power commands are disabled.
abbrev reboot : NetworkPacket tree_json
reboot =
    packet tree_json (bytes "kdeconnect.runcommand.request")
      (set_str tree_json (bytes "key") (bytes "nx-reboot") (Body.empty tree_json))

abbrev commands : RunCommandPlugin
commands = record { remote_commands = []; executed = [] }

on_packet_received-RunsAllowed_example :
    RunsAllowed false [] (on_packet_received tree_json false reboot commands).0.executed
on_packet_received-RunsAllowed_example =
    on_packet_received-RunsAllowed tree_json false reboot commands
