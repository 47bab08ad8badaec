-- ===== src/Examples/Requests.antt =====
-- The service for the overlay at concrete requests.
use kdeconnect_nx.Prelude.{
  Text, bytes, true, false, none, some, [], ◌∷◌, ◌≡◌, refl, arith, ◌==◌, if◌then◌else◌,
}
use kdeconnect_nx.Prelude.Int.{pos, negsuc}
use kdeconnect_nx.Settings.{no_settings, get_bool_key, get_int_key}
use kdeconnect_nx.Client.State.{requested}
use kdeconnect_nx.Plugins.Mpris.{MprisPlugin, no_state}
use kdeconnect_nx.Ipc.Requests.{
  kdec_ipc_read_bool_setting, kdec_ipc_write_bool_setting, kdec_ipc_read_int_setting,
  kdec_ipc_write_int_setting,
}
use kdeconnect_nx.Ipc.Listing.{Views}
use kdeconnect_nx.Ipc.Service.{ok, bad_input, flag, int, Request, Environment, IpcState, Reply}
use kdeconnect_nx.Ipc.Service.Handlers.{pair_command}
use kdeconnect_nx.Ipc.Service.Commands.{handle_command, handle_known, handle}
use kdeconnect_nx.Ipc.Service.Refused.{handle_command-refused}
use kdeconnect_nx.Ipc.Service.Calls.{answer}
use kdeconnect_nx.Ipc.Service.Preferences.{ask-read_written}
use kdeconnect_nx.Examples.Devices.{greeter, digest, client, noon}

abbrev followed : MprisPlugin
followed = record {
  player_list = bytes "vlc" ∷ [];
  current_player = bytes "vlc";
  state = no_state;
  seek_lock_until_ms = pos 0;
  art_calls = [];
}

-- The one plugin is all of these.
abbrev views : Views Text
views = record {
  as_battery = λ p. none;
  as_volume =
      λ p. some (record { volume = pos 50; muted = false; remote_sinks = []; set_calls = [] });
  as_mpris = λ p. some followed;
  as_run_command = λ p. some (record { remote_commands = []; executed = [] });
  is_ping = λ p. some tt;
  is_find_my_phone = λ p. none;
  is_share = λ p. none;
  put_mpris = λ m p. p;
}

abbrev surroundings : Environment greeter
surroundings = record {
  has_client = true;
  now = noon;
  steady_ms = pos 0;
  folder = [];
  used_memory = 0;
  transfer_memory = 0;
  heap_in_use = 0;
  heap_free = 0;
  heap_size = 0;
  version = [];
  git_commit = [];
  is_debug = false;
  send_screenshot = λ id c. (c, true);
}

abbrev serving : IpcState greeter
serving = record {
  client = client requested;
  settings = no_settings;
  posted_tests = [];
  test_notification_id = 0;
  broadcasts = 0;
}

abbrev base : Text
base = bytes "/kdc"

abbrev settings_file : Text
settings_file = bytes "/s"

abbrev asked : Request → Reply greeter
asked r = answer greeter views digest base settings_file surroundings refl r serving

-- The flag of the power commands is set, after which lists are sent, and an integer below 0.
abbrev flagged : Reply greeter
flagged = asked (kdec_ipc_write_bool_setting [] 6 true)

abbrev numbered : Reply greeter
numbered =
    answer greeter views digest base settings_file surroundings refl
      (kdec_ipc_write_int_setting [] 2 (negsuc 4)) flagged.0

abbrev reads : Request → IpcState greeter → Reply greeter
reads = answer greeter views digest base settings_file surroundings refl

ask-read_written_example :
    (flagged.1 ≡ ok)
    × (numbered.1 ≡ ok)
    × (reads (kdec_ipc_read_bool_setting [] 6) flagged.0
        ≡ (flagged.0, ok, flag (if 6 == 6 then true else get_bool_key 6 no_settings)))
    × (reads (kdec_ipc_read_int_setting [] 2) flagged.0
        ≡ (flagged.0, ok, int (get_int_key 2 no_settings)))
    × (reads (kdec_ipc_read_bool_setting [] 6) numbered.0
        ≡ (numbered.0, ok, flag (if 6 == 6 then true else get_bool_key 6 no_settings)))
    × (reads (kdec_ipc_read_int_setting [] 2) numbered.0
        ≡ (numbered.0, ok, int (if 2 == 2 then negsuc 4 else get_int_key 2 no_settings)))
ask-read_written_example =
    ask-read_written greeter views digest base settings_file surroundings refl 6 6 2 2 true
      (negsuc 4) [] serving (omega arith) (omega arith) (omega arith)

-- A request to pair that names no device.
abbrev too_short : Request
too_short = record { cmd_id = 3; input = []; recv_size = none }

too_short_refused :
    (handle_command greeter views digest base settings_file surroundings too_short serving).1
    ≡ bad_input
unfolding handle_command handle_known handle pair_command
too_short_refused = refl

handle_command-refused_example :
    (handle_command greeter views digest base settings_file surroundings too_short serving).0
    ≡ serving
handle_command-refused_example =
    handle_command-refused greeter views digest base settings_file surroundings too_short serving
      (λ q. cc) (λ q. cc (too_short_refused, q))
