-- ===== src/Plugins/Battery/Reports.antt =====
-- What the other device knows of this device's battery.
use kdeconnect_nx.Prelude.{
  Bool, true, not, ◌&&◌, Option, none, some, List, [], ◌∷◌, ◌≡◌, refl, if◌then◌else◌,
}
use kdeconnect_nx.Prelude.Int.{ℤ, pos, eq_ℤ, leb_ℤ, ◌-ℤ◌}
use kdeconnect_nx.Json.Yyjson.{Yyjson}
use kdeconnect_nx.Packet.{NetworkPacket}
use kdeconnect_nx.Plugins.Battery.{
  BatteryPlugin, differ, status_packet, send_status, connected, on_connected,
}

module _ (y : Yyjson) where
  -- The status that was sent last, or what was sent before.
  abbrev pub last_sent :
      Option (NetworkPacket y) → List (NetworkPacket y) → Option (NetworkPacket y)
  last_sent before [] = before
  last_sent before (p ∷ ps) = last_sent (some p) ps

  -- The other device was told what the plugin has cached.
  abbrev pub IsReported : Option (NetworkPacket y) → BatteryPlugin → Type 0
  IsReported told b =
      (b.cache_valid ≡ true) × (told ≡ some (status_packet y b.cached_charge b.cached_charging))

  -- A connection on which the battery can be read reports it: the reading is sent and cached.
  pub on_connected-IsReported :
      (charge now : ℤ) (charging : Bool) (told : Option (NetworkPacket y)) (b : BatteryPlugin)
      → let (b', sent) = on_connected y (some (charge, charging)) now true b in
        IsReported (last_sent told sent) b'
  unfolding on_connected connected send_status
  on_connected-IsReported charge now charging told b = (refl, refl)

  -- A poll takes place: the device is connected, and the last poll is ten seconds old.
  abbrev pub polls : ℤ → BatteryPlugin → Bool
  polls now b = b.active && leb_ℤ (pos 10000000000) (now -ℤ b.last_poll)

  -- What the plugin knows of the console's battery after a poll.
  abbrev pub known : Option (ℤ × Bool) → ℤ → BatteryPlugin → ℤ × Bool
  known none now b = (b.cached_charge, b.cached_charging)
  known (some reading) now b = if polls now b then reading else (b.cached_charge, b.cached_charging)

  -- Two statuses are alike.
  abbrev pub alike : ℤ × Bool → ℤ × Bool → Bool
  alike (a, x) (b, z) = eq_ℤ a b && not (differ x z)
