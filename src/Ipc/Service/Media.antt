-- ===== src/Ipc/Service/Media.antt =====
-- What a media action of the overlay comes to, written out by its number.
use kdeconnect_nx.Prelude.{
  ℕ, zero, suc, ◌<◌, Text, bytes, false, Option, none, some, List, [], ◌∷◌, ◌≡◌, refl, arith, ◌==◌,
  if◌then◌else◌, get_elem?,
}
use kdeconnect_nx.Prelude.Int.{ℤ, pos, ◌+ℤ◌, ◌*ℤ◌, wrap32, wrap64}
use kdeconnect_nx.Json.Yyjson.{Yyjson}
use kdeconnect_nx.Json.Body
use kdeconnect_nx.Json.Body.{JsonBody}
use kdeconnect_nx.Json.Setters.{set_i64, set_int, set_str}
use kdeconnect_nx.Packet.{packet}
use kdeconnect_nx.Client.State.{PluginHost, update}
use kdeconnect_nx.Plugins.Mpris.{MprisPlugin, send_action, set_volume, seek, set_position, request}
use kdeconnect_nx.Ipc.Listing.{Views}
use kdeconnect_nx.Ipc.Service.{Request, Environment, IpcState, send_from}
use kdeconnect_nx.Ipc.Service.Handlers.{media_action, move_player, put_first}

-- The names of the actions that are a word, by their numbers in `KdecMediaAction`.
abbrev pub action_names : List Text
action_names =
    bytes "Play"
    ∷ bytes "Pause"
    ∷ bytes "PlayPause"
    ∷ bytes "Stop"
    ∷ bytes "Next"
    ∷ bytes "Previous"
    ∷ []

module _ (y : Yyjson) where
  -- The request for a player that stands for an action: a word, a volume, a step, given in
  -- milliseconds and sent in microseconds, or a position in milliseconds; and for other numbers none.
  abbrev numbered : ℕ → Text → ℤ → Option (JsonBody y)
  numbered action player value =
      let named = set_str y (bytes "player") player (Body.empty y) in
      if action == 6
      then some (set_int y (bytes "setVolume") (wrap32 value) named)
      else if action == 7
      then some (set_i64 y (bytes "Seek") (wrap64 (value *ℤ pos 1000)) named)
      else if action == 8
      then some (set_i64 y (bytes "SetPosition") value named)
      else none

  abbrev worded : Text → Option Text → Option (JsonBody y) → Option (JsonBody y)
  worded player none other = other
  worded player (some name) other =
      some (set_str y (bytes "action") name (set_str y (bytes "player") player (Body.empty y)))

  abbrev pub media_request : ℕ → Text → ℤ → Option (JsonBody y)
  media_request action player value =
      worded player (get_elem? action_names action) (numbered action player value)

no_action : (n k : ℕ) → k < 9 → (suc (suc (suc (suc (suc (suc (suc (suc (suc n)))))))) == k) ≡ false
no_action n k small = ground arith

module _ {y : Yyjson} (host : PluginHost y) (views : Views host.Plugin) (e : Environment host) where
  -- A position is taken over by the plugin of the session at once, and kept for half a second.
  abbrev pub moved : ℕ → ℤ → ℕ → MprisPlugin → IpcState host → IpcState host
  moved action value h p s =
      let p' = record p {
        state = record p.state { position = value; last_position_time_ms = e.steady_ms };
        seek_lock_until_ms = wrap64 (e.steady_ms +ℤ pos 500);
      } in
      if action == 8
      then record s {
        client = update h (λ t. record t { plugins = put_first views p' t.plugins }) s.client;
      }
      else s

  abbrev sent_request : Option (JsonBody y) → ℕ → IpcState host → IpcState host
  sent_request none h s = s
  sent_request (some body) h s =
      send_from host e h (packet y (bytes "kdeconnect.mpris.request") body) s

  abbrev pub acted : ℕ → Text → ℤ → ℕ → MprisPlugin → IpcState host → IpcState host
  acted action player value h p s =
      moved action value h p (sent_request (media_request y action player value) h s)

  pub media_action_lem :
      (sha256_hex_upper : Text → Text) (base settings_path : Text) (r : Request) (action : ℕ)
      (player : Text) (value : ℤ) (h : ℕ) (p : MprisPlugin) (s : IpcState host)
      → media_action host views sha256_hex_upper base settings_path e r action player value h p s
        ≡ acted action player value h p s
  unfolding media_action move_player send_action set_volume seek set_position request
  media_action_lem sha256_hex_upper base settings_path r zero player value h p s = refl
  media_action_lem sha256_hex_upper base settings_path r (suc zero) player value h p s = refl
  media_action_lem sha256_hex_upper base settings_path r (suc (suc zero)) player value h p s = refl
  media_action_lem sha256_hex_upper base settings_path r (suc (suc (suc zero))) player value h p s =
      refl
  media_action_lem sha256_hex_upper base settings_path r (suc (suc (suc (suc zero)))) player value h
        p s =
      refl
  media_action_lem sha256_hex_upper base settings_path r (suc (suc (suc (suc (suc zero))))) player
        value h p s =
      refl
  media_action_lem sha256_hex_upper base settings_path r (suc (suc (suc (suc (suc (suc zero))))))
        player value h p s =
      refl
  media_action_lem sha256_hex_upper base settings_path r
        (suc (suc (suc (suc (suc (suc (suc zero))))))) player value h p s =
      refl
  media_action_lem sha256_hex_upper base settings_path r
        (suc (suc (suc (suc (suc (suc (suc (suc zero)))))))) player value h p s =
      refl
  media_action_lem sha256_hex_upper base settings_path r
        (suc (suc (suc (suc (suc (suc (suc (suc (suc n))))))))) player value h p s =
      rw
        (
          no_action n 0 (omega arith),
          no_action n 1 (omega arith),
          no_action n 2 (omega arith),
          no_action n 3 (omega arith),
          no_action n 4 (omega arith),
          no_action n 5 (omega arith),
          no_action n 6 (omega arith),
          no_action n 7 (omega arith),
          no_action n 8 (omega arith),
        )
        refl
