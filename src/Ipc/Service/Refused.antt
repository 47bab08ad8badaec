-- ===== src/Ipc/Service/Refused.antt =====
-- What a request leaves behind that is not answered with success.
use kdeconnect_nx.Prelude.{
  ℕ, Text, Bool, true, false, Option, none, some, ◌≡◌, ◌≢◌, refl, ap, if◌then◌else◌, get_elem?, not,
}
use kdeconnect_nx.Json.Yyjson.{Yyjson}
use kdeconnect_nx.Client.State.{PluginHost, device}
use kdeconnect_nx.Ipc.Listing.{Views, plugin}
use kdeconnect_nx.Ipc.Service.{
  Code, ok, not_initialized, unknown_command, bad_input, not_found, Out, Request, Environment,
  IpcState, Reply, refuse, found_plugin, found_session, with_plugin, buffered,
}
use kdeconnect_nx.Ipc.Service.Handlers
use kdeconnect_nx.Ipc.Service.Console
use kdeconnect_nx.Ipc.Service.Commands.{
  Command, send_screenshot, commands, handle, handle_known, handle_command,
}

module _ {y : Yyjson} (host : PluginHost y) (s : IpcState host) where
  -- A reply that keeps the state unless it is a success.
  record Keeps (reply : Reply host) : Type 0 where
    at : reply.1 ≢ ok → reply.0 ≡ s

  Keeps-success : (s' : IpcState host) (out : Out) → Keeps (s', ok, out)
  Keeps-success s' out = record { at = λ h. absurd (h refl) }

  Keeps-refuse : (code : Code) → Keeps (refuse host code s)
  Keeps-refuse code = record { at = λ _. refl }

  Keeps-if : (b : Bool) (p q : Reply host) → Keeps p → Keeps q → Keeps (if b then p else q)
  Keeps-if true p q hp hq = hp
  Keeps-if false p q hp hq = hq

  Keeps-buffered :
      (size : Option ℕ) (reply : ℕ → Reply host)
      → ((n : ℕ) → Keeps (reply n))
      → Keeps (buffered host size s reply)
  unfolding buffered
  Keeps-buffered none reply h = Keeps-refuse bad_input
  Keeps-buffered (some n) reply h = h n

  Keeps-found_plugin :
      {T : Type 0} (o : Option T) (reply : T → Reply host)
      → ((t : T) → Keeps (reply t))
      → Keeps (found_plugin host s o reply)
  unfolding found_plugin
  Keeps-found_plugin none reply h = Keeps-refuse not_found
  Keeps-found_plugin (some t) reply h = h t

  Keeps-found_session :
      {T : Type 0} (view : host.Plugin → Option T) (o : Option ℕ) (reply : ℕ → T → Reply host)
      → ((g : ℕ) (t : T) → Keeps (reply g t))
      → Keeps (found_session host view s o reply)
  unfolding found_session
  Keeps-found_session view none reply h = Keeps-refuse not_found
  Keeps-found_session view (some g) reply h =
      Keeps-found_plugin (plugin view (s.client.heap g).plugins) (reply g) (h g)

  Keeps-with_plugin :
      {T : Type 0} (view : host.Plugin → Option T) (id : Text) (reply : ℕ → T → Reply host)
      → ((g : ℕ) (t : T) → Keeps (reply g t))
      → Keeps (with_plugin host view id s reply)
  unfolding with_plugin
  Keeps-with_plugin view id reply h = Keeps-found_session view (device s.client id) reply h

ruleset keeps_rules = (Keeps-success, Keeps-refuse, Keeps-if, Keeps-buffered, Keeps-with_plugin)

module _ {y : Yyjson} (host : PluginHost y) (views : Views host.Plugin)
    (sha256_hex_upper : Text → Text) (base settings_path : Text) (e : Environment host) where
  abbrev run : Command → Request → IpcState host → Reply host
  run = handle host views sha256_hex_upper base settings_path e

  Keeps-handle :
      (c : Command) (r : Request) (s : IpcState host)
      → c ≢ send_screenshot
      → Keeps host s (run c r s)
  unfolding handle Handlers.get_device_count Handlers.list_devices Handlers.pair_command
      Handlers.ping_device Handlers.ring Handlers.get_volume_sinks Handlers.set_volume_sink
      Handlers.get_media_info Handlers.send_media_action Handlers.get_command_list
      Handlers.run_command Console.read_bool_setting Console.write_bool_setting
      Console.read_int_setting Console.write_int_setting Console.get_all_settings
      Console.get_memory_info Console.send_test_notification Console.send_broadcast
      Console.get_version_info
  Keeps-handle send_screenshot r s n = absurd (n refl)
  Keeps-handle _ r s n = search keeps_rules

  Keeps-handle_known :
      (o : Option Command) (r : Request) (s : IpcState host)
      → o ≢ some send_screenshot
      → Keeps host s (handle_known host views sha256_hex_upper base settings_path e o r s)
  unfolding handle_known
  Keeps-handle_known none r s n = Keeps-refuse host s unknown_command
  Keeps-handle_known (some c) r s n = Keeps-handle c r s (λ q. n (ap some q))

  -- A request that is refused, for whatever reason, changes nothing: neither the client, with its
  -- sessions, its queues and its disk, nor the settings. This leaves out the screenshot, whose plugin
  -- may fail half-way.
  pub handle_command-refused :
      (r : Request) (s : IpcState host)
      → get_elem? commands r.cmd_id ≢ some send_screenshot
      → (handle_command host views sha256_hex_upper base settings_path e r s).1 ≢ ok
      → (handle_command host views sha256_hex_upper base settings_path e r s).0 ≡ s
  unfolding handle_command
  handle_command-refused r s n =
      (Keeps-if host s (not e.has_client) _ _ (Keeps-refuse host s not_initialized)
        (Keeps-handle_known (get_elem? commands r.cmd_id) r s n)).at
