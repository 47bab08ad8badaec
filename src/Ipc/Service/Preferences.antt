-- ===== src/Ipc/Service/Preferences.antt =====
-- The settings as the overlay sees them.
use kdeconnect_nx.Prelude.{
  ℕ, suc, ◌<◌, Text, Bool, true, false, List, [], ◌∷◌, ◌++◌, ◌≡◌, ◌==◌, refl, ap, ◌∙◌, arith,
  if◌then◌else◌, ltb, leb, length, length-append, is_some, Bool-cases, inl, inr,
}
use kdeconnect_nx.Prelude.Int.{ℤ, IsInt32}
use kdeconnect_nx.Json.Yyjson.{Yyjson}
use kdeconnect_nx.Packet.{NetworkPacket}
use kdeconnect_nx.Client.State.{PluginHost}
use kdeconnect_nx.Storage.{Disk}
use kdeconnect_nx.Settings.{Settings, get_bool_key, get_int_key, set_bool_key, set_int_key}
use kdeconnect_nx.Settings.Changes.{
  get_bool_key-assign, get_int_key-assign, get_int_key-flag, get_bool_key-number,
}
use kdeconnect_nx.Plugins.RunCommand.{local_command_list}
use kdeconnect_nx.Ipc.Wire.{field_byte, wire_write_bool, wire_write_int, pad_to, int32_bytes}
use kdeconnect_nx.Ipc.Wire.Fields.{length-int32_bytes}
use kdeconnect_nx.Ipc.Wire.RoundTrip.{wire_write_bool_lem, wire_write_int_lem}
use kdeconnect_nx.Ipc.Requests.{
  kdec_ipc_read_bool_setting, kdec_ipc_write_bool_setting, kdec_ipc_read_int_setting,
  kdec_ipc_write_int_setting,
}
use kdeconnect_nx.Ipc.Listing.{Views, plugin}
use kdeconnect_nx.Ipc.Service.{
  ok, flag, int, nothing, Request, Environment, IpcState, Reply, send_from,
}
use kdeconnect_nx.Ipc.Service.Console.{
  resend_lists, read_bool_setting, write_bool_setting, read_int_setting, write_int_setting,
  power_commands_key,
}
use kdeconnect_nx.Ipc.Service.Commands.{handle, handle_known}
use kdeconnect_nx.Ipc.Service.Calls.{answer, answer_lem}

long_int :
    (key : ℕ) (value : ℤ) (padding : Text)
    → ltb (length (wire_write_int key value ++ padding)) 8 ≡ false
unfolding wire_write_int pad_to
long_int key value padding =
    ground (arith, length-append (int32_bytes value) padding, length-int32_bytes value)

module _ {y : Yyjson} (host : PluginHost y) (views : Views host.Plugin)
    (sha256_hex_upper : Text → Text) (base settings_path : Text) (e : Environment host) where
  sent_or_not :
      (h : ℕ) (p : NetworkPacket y) (s : IpcState host) (b : Bool)
      → (if b then send_from host e h p s else s).settings ≡ s.settings
  unfolding send_from
  sent_or_not h p s true = refl
  sent_or_not h p s false = refl

  resend_lists-settings :
      (r : Request) (sessions : List (Text × ℕ)) (s : IpcState host)
      → (resend_lists host views sha256_hex_upper base settings_path e r sessions s).settings
        ≡ s.settings
  unfolding resend_lists
  resend_lists-settings r [] s = refl
  resend_lists-settings r ((id, h) ∷ rest) s =
      resend_lists-settings r rest _
      ∙ sent_or_not h (local_command_list y (get_bool_key power_commands_key s.settings)) s
          (is_some (plugin views.as_run_command (s.client.heap h).plugins))

  module _ (there : e.has_client ≡ true) where
    abbrev ask : Request → IpcState host → Reply host
    ask = answer host views sha256_hex_upper base settings_path e there

    read_bool_lem :
        (key : ℕ) (padding : Text) (s : IpcState host)
        → key < 9
        → ask (kdec_ipc_read_bool_setting padding key) s
          ≡ (s, ok, flag (get_bool_key key s.settings))
    unfolding handle_known handle read_bool_setting field_byte
    read_bool_lem key padding s h =
        let known : leb 9 key ≡ false = ground (arith, h) in
        let long : ltb (suc (length padding)) 1 ≡ false = ground arith in
        answer_lem host views sha256_hex_upper base settings_path e there _ s
        ∙ rw (long, known) refl

    -- What is stored of a setting, in the memory and on the disk.
    abbrev stored : Settings × Disk → IpcState host → IpcState host
    stored (settings, disk) s = record s {
      settings = settings;
      client = record s.client { disk = disk };
    }

    after_write : ℕ → Bool → Text → IpcState host → IpcState host
    after_write key value padding s =
        let s1 = stored (set_bool_key y settings_path key value s.settings s.client.disk) s in
        if key == power_commands_key
        then resend_lists host views sha256_hex_upper base settings_path e
            (kdec_ipc_write_bool_setting padding key value) s1.client.sessions s1
        else s1

    write_bool_lem :
        (key : ℕ) (value : Bool) (padding : Text) (s : IpcState host)
        → ask (kdec_ipc_write_bool_setting padding key value) s
          ≡ (after_write key value padding s, ok, nothing)
    unfolding handle_known handle write_bool_setting after_write
    write_bool_lem key value padding s =
        let (at_key, at_value) = wire_write_bool_lem key value padding in
        let long : ltb (length (wire_write_bool key value ++ padding)) 2 ≡ false =
          unfold wire_write_bool in ground arith in
        answer_lem host views sha256_hex_upper base settings_path e there _ s
        ∙ rw (long, at_key, at_value) refl

    after_write-settings :
        (key : ℕ) (value : Bool) (padding : Text) (s : IpcState host)
        → (after_write key value padding s).settings
          ≡ (set_bool_key y settings_path key value s.settings s.client.disk).0
    unfolding after_write
    after_write-settings key value padding s = elim (Bool-cases (key == power_commands_key)) [
      | inr other ↦ rw other refl
      | inl power ↦ rw power (resend_lists-settings _ _ _)
    ]

    write_int_lem :
        (key : ℕ) (value : ℤ) (padding : Text) (s : IpcState host)
        → IsInt32 value
        → ask (kdec_ipc_write_int_setting padding key value) s
          ≡ (stored (set_int_key y settings_path key value s.settings s.client.disk) s, ok, nothing)
    unfolding handle_known handle write_int_setting
    write_int_lem key value padding s fits =
        let (at_key, at_value) = wire_write_int_lem key value padding fits in
        let long = long_int key value padding in
        answer_lem host views sha256_hex_upper base settings_path e there _ s
        ∙ rw (long, at_key, at_value) refl

    read_int_lem :
        (key : ℕ) (padding : Text) (s : IpcState host)
        → key < 4
        → ask (kdec_ipc_read_int_setting padding key) s ≡ (s, ok, int (get_int_key key s.settings))
    unfolding handle_known handle read_int_setting field_byte
    read_int_lem key padding s h =
        let known : leb 4 key ≡ false = ground (arith, h) in
        let long : ltb (suc (length padding)) 1 ≡ false = ground arith in
        answer_lem host views sha256_hex_upper base settings_path e there _ s
        ∙ rw (long, known) refl

    -- While the program has its client, the overlay reads of a known setting what it has written last,
    -- and of every other flag and integer what was there before, after it has written a flag and then
    -- an integer: flags and integers of 32 bits come through the wire as they are, also where the new
    -- flag makes the service send lists of commands.
    pub ask-read_written :
        (key k i j : ℕ) (value : Bool) (n : ℤ) (padding : Text) (s : IpcState host)
        → k < 9
        → i < 4
        → IsInt32 n
        → let b = ask (kdec_ipc_write_bool_setting padding key value) s in
          let w = ask (kdec_ipc_write_int_setting padding j n) b.0 in
          (b.1 ≡ ok)
          × (w.1 ≡ ok)
          × (ask (kdec_ipc_read_bool_setting padding k) b.0
              ≡ (b.0, ok, flag (if k == key then value else get_bool_key k s.settings)))
          × (ask (kdec_ipc_read_int_setting padding i) b.0
              ≡ (b.0, ok, int (get_int_key i s.settings)))
          × (ask (kdec_ipc_read_bool_setting padding k) w.0
              ≡ (w.0, ok, flag (if k == key then value else get_bool_key k s.settings)))
          × (ask (kdec_ipc_read_int_setting padding i) w.0
              ≡ (w.0, ok, int (if i == j then n else get_int_key i s.settings)))
    ask-read_written key k i j value n padding s hk hi fits =
        let b = ask (kdec_ipc_write_bool_setting padding key value) s in
        let w = ask (kdec_ipc_write_int_setting padding j n) b.0 in
        let wrote = write_bool_lem key value padding s in
        let wrote_int = write_int_lem j n padding b.0 fits in
        let settings =
          ap (λ (q : Reply host). q.0.settings) wrote ∙ after_write-settings key value padding s in
        let settings_int = ap (λ (q : Reply host). q.0.settings) wrote_int in
        let flags =
          ap (get_bool_key k) settings
          ∙ get_bool_key-assign y settings_path s.settings s.client.disk key k value in
        let ints =
          ap (get_int_key i) settings
          ∙ get_int_key-flag y settings_path s.settings s.client.disk key i value in
        let flags_later =
          ap (get_bool_key k) settings_int
          ∙ (get_bool_key-number y settings_path b.0.settings b.0.client.disk j k n ∙ flags) in
        let ints_later =
          ap (get_int_key i) settings_int
          ∙ (get_int_key-assign y settings_path b.0.settings b.0.client.disk j i n
              ∙ ap (λ v. if i == j then n else v) ints) in
        (
          ap (λ (q : Reply host). q.1) wrote,
          ap (λ (q : Reply host). q.1) wrote_int,
          read_bool_lem k padding b.0 hk ∙ ap (λ v. (b.0, ok, flag v)) flags,
          read_int_lem i padding b.0 hi ∙ ap (λ v. (b.0, ok, int v)) ints,
          read_bool_lem k padding w.0 hk ∙ ap (λ v. (w.0, ok, flag v)) flags_later,
          read_int_lem i padding w.0 hi ∙ ap (λ v. (w.0, ok, int v)) ints_later,
        )
