-- ===== src/Plugins/Battery.antt =====
-- plugins/battery_plugin.cpp. What the power service answers is an argument, `none` where it fails, and for
-- a poll, which may ask it twice, two;
-- so are the steady clock in nanoseconds, the setting for the notification, and the name of the
-- session that the device has, if it has one.
pub mod Reports
use kdeconnect_nx.Prelude.{
  ℕ, Text, bytes, Bool, true, false, not, ◌&&◌, ◌||◌, Option, none, some, List, [], ◌∷◌, ◌++◌, leb,
  if◌then◌else◌, eq_text, ◌^◌,
}
use kdeconnect_nx.Prelude.Int.{ℤ, pos, negsuc, ◌-ℤ◌, ltb_ℤ, eq_ℤ, pattern_of}
use kdeconnect_nx.Json.Yyjson.{Yyjson}
use kdeconnect_nx.Json.Body
use kdeconnect_nx.Json.Setters.{set_bool, set_int}
use kdeconnect_nx.Packet.{NetworkPacket, packet}
use kdeconnect_nx.Client.State.{Notification}
use kdeconnect_nx.Client.Key.{to_string}

pub record BatteryPlugin : Type 0 where
  pub cached_charge : ℤ
  pub cached_charging : Bool
  pub cache_valid : Bool
  pub cached_remote_charge : ℤ
  pub cached_remote_charging : Bool
  pub active : Bool
  pub notified_low : Bool
  pub last_poll : ℤ

-- `a != b` of two flags.
abbrev pub differ : Bool → Bool → Bool
differ true b = not b
differ false b = b

-- `!charging && charge <= 15u`: the comparison is unsigned.
unfoldable pub is_low : ℤ → Bool → Bool
is_low charge charging = not charging && leb (pattern_of (2 ^ 32) charge) 15

module _ (y : Yyjson) where
  unfoldable pub status_packet : ℤ → Bool → NetworkPacket y
  status_packet charge charging = packet y (bytes "kdeconnect.battery") (
      set_int y (bytes "thresholdEvent") (if is_low charge charging then pos 1 else pos 0) (
        set_bool y (bytes "isCharging") charging
          (set_int y (bytes "currentCharge") charge (Body.empty y))))

  unfoldable pub status_of : Option (ℤ × Bool) → List (NetworkPacket y)
  status_of none = []
  status_of (some (charge, charging)) = status_packet charge charging ∷ []

  unfoldable pub send_status : Option (ℤ × Bool) → BatteryPlugin → List (NetworkPacket y)
  send_status hardware b =
      if b.cache_valid
      then status_packet b.cached_charge b.cached_charging ∷ []
      else status_of hardware

  unfoldable pub connected :
      Option (ℤ × Bool) → ℤ → BatteryPlugin → BatteryPlugin × List (NetworkPacket y)
  connected none now b = (record b { active = true; notified_low = false; last_poll = now }, [])
  connected (some (charge, charging)) now b =
      let b' = record b {
        cached_charge = charge;
        cached_charging = charging;
        cache_valid = true;
        active = true;
        notified_low = false;
        last_poll = now;
      } in
      (b', send_status (some (charge, charging)) b')

  unfoldable pub on_connected :
      Option (ℤ × Bool) → ℤ → Bool → BatteryPlugin → BatteryPlugin × List (NetworkPacket y)
  on_connected hardware now paired b = if not paired then (b, []) else connected hardware now b

  unfoldable pub polled :
      Option (ℤ × Bool) → Option (ℤ × Bool) → BatteryPlugin → BatteryPlugin × List (NetworkPacket y)
  polled none again b = (b, [])
  polled (some (charge, charging)) again b =
      let b' = record b { cached_charge = charge; cached_charging = charging } in
      if not (eq_ℤ charge b.cached_charge) || differ charging b.cached_charging
      then (b', send_status again b')
      else (b, [])

  unfoldable pub process_events :
      Option (ℤ × Bool)
      → Option (ℤ × Bool)
      → ℤ
      → BatteryPlugin
      → BatteryPlugin × List (NetworkPacket y)
  process_events hardware again now b =
      if not b.active
      then (b, [])
      else if ltb_ℤ (now -ℤ b.last_poll) (pos 10000000000)
      then (b, [])
      else polled hardware again (record b { last_poll = now })

  -- The notification of the other device's low battery.
  unfoldable pub low_battery : Text → Option Text → ℤ → Notification
  low_battery device_id name charge = record {
    title = elim name [ none ↦ device_id | some n ↦ n ];
    body = bytes "Low Battery: " ++ to_string charge ++ bytes "%";
    id = bytes "battery_low_" ++ device_id;
  }

  unfoldable pub on_remote_status :
      Bool
      → Text
      → Option Text
      → NetworkPacket y
      → BatteryPlugin
      → BatteryPlugin × List Notification
  on_remote_status show device_id name np b =
      let remote_charge = Body.value_int y np.body (bytes "currentCharge") (negsuc 0) in
      let remote_charging = Body.value_bool y np.body (bytes "isCharging") false in
      let low = eq_ℤ (Body.value_int y np.body (bytes "thresholdEvent") (pos 0)) (pos 1) in
      let b' = record b {
        cached_remote_charge = remote_charge;
        cached_remote_charging = remote_charging;
      } in
      if not remote_charging && (low && show)
      then (record b' { notified_low = true }, low_battery device_id name remote_charge ∷ [])
      else if remote_charging || ltb_ℤ (pos 15) remote_charge
      then (record b' { notified_low = false }, [])
      else (b', [])

  unfoldable pub on_packet_received :
      Option (ℤ × Bool)
      → Bool
      → Text
      → Option Text
      → NetworkPacket y
      → BatteryPlugin
      → BatteryPlugin × Bool × List (NetworkPacket y) × List Notification
  on_packet_received hardware show device_id name np b =
      let (b', posted) = on_remote_status show device_id name np b in
      if eq_text np.type (bytes "kdeconnect.battery.request")
      then (b, true, send_status hardware b, [])
      else if eq_text np.type (bytes "kdeconnect.battery")
      then (b', true, [], posted)
      else (b, false, [], [])
