-- ===== src/Plugins/Volume.antt =====
-- plugins/system_volume_plugin.cpp: the console's own volume, and the volumes of the other device.
-- What the audio service answers is an argument. The levels that it is asked for are kept in order; it
-- may refuse them, which is not looked at.
pub mod Levels
pub mod Sinks
pub mod Muting
use kdeconnect_nx.Prelude.{
  Text, bytes, Bool, true, false, not, Option, none, some, List, [], ◌∷◌, ◌++◌, if◌then◌else◌,
  eq_text,
}
use kdeconnect_nx.Prelude.Int.{ℤ, pos, ◌*ℤ◌, quot_ℤ, wrap32, ltb_ℤ, max_ℤ}
use kdeconnect_nx.Json.Yyjson.{Yyjson}
use kdeconnect_nx.Json.Body
use kdeconnect_nx.Json.Body.{JsonBody}
use kdeconnect_nx.Json.Iterate.{each_obj}
use kdeconnect_nx.Json.Setters.{set_bool, set_int, set_str, set_array_with_object}
use kdeconnect_nx.Packet.{NetworkPacket, packet}

pub record SinkState : Type 0 where
  pub name : Text
  pub description : Text
  pub volume : ℤ
  pub max_volume : ℤ
  pub is_muted : Bool
  pub is_default_output : Bool

pub record SystemVolumePlugin : Type 0 where
  pub volume : ℤ
  pub muted : Bool
  pub remote_sinks : List SinkState
  pub set_calls : List ℤ

-- `max_volume > 0 ? (raw_vol * 100) / max_volume : 0`, with the product of an `int`.
unfoldable pub percent : ℤ → ℤ → ℤ
percent raw_vol max_volume =
    if ltb_ℤ (pos 0) max_volume then quot_ℤ (wrap32 (raw_vol *ℤ pos 100)) max_volume else pos 0

-- `(volume * max_volume) / 100`
unfoldable pub raw_level : ℤ → ℤ → ℤ
raw_level volume max_volume = quot_ℤ (wrap32 (volume *ℤ max_volume)) (pos 100)

-- The answer is `none` where the audio service fails.
unfoldable pub get_system_volume : Option ℤ → ℤ
get_system_volume none = pos 50
get_system_volume (some vol) = vol

-- The request of a level, whether the service takes it or not.
unfoldable pub set_system_volume : ℤ → SystemVolumePlugin → SystemVolumePlugin
set_system_volume volume p = record p { set_calls = p.set_calls ++ volume ∷ [] }

-- The maximum of the first sink with the name, for `set_remote_sink`.
unfoldable pub max_volume_of : Text → List SinkState → ℤ
max_volume_of sink_name [] = pos 100
max_volume_of sink_name (s ∷ ss) =
    if eq_text s.name sink_name then s.max_volume else max_volume_of sink_name ss

module _ (y : Yyjson) where
  unfoldable pub send_sink_list : Option ℤ → NetworkPacket y
  send_sink_list system = packet y (bytes "kdeconnect.systemvolume") (
      set_array_with_object y (bytes "sinkList")
        (λ sink. set_bool y (bytes "enabled") true (
          set_int y (bytes "maxVolume") (pos 100) (
            set_int y (bytes "volume") (get_system_volume system) (
              set_bool y (bytes "muted") false (
                set_str y (bytes "description") (bytes "Master Audio Output")
                  (set_str y (bytes "name") (bytes "Output") sink))))))
        (Body.empty y))

  unfoldable pub on_connected : Option ℤ → Bool → List (NetworkPacket y)
  on_connected system paired =
      if not paired
      then []
      else send_sink_list system
        ∷ packet y (bytes "kdeconnect.systemvolume.request")
            (set_bool y (bytes "requestSinks") true (Body.empty y))
        ∷ []

  unfoldable pub apply_volume : JsonBody y → SystemVolumePlugin → SystemVolumePlugin
  apply_volume body p =
      let volume = max_ℤ (Body.get_int y body (bytes "volume")) (pos 0) in
      if Body.is_num y body (bytes "volume")
      then set_system_volume volume (record p { volume = volume })
      else p

  unfoldable pub apply_muted : JsonBody y → SystemVolumePlugin → SystemVolumePlugin
  apply_muted body p =
      let muted = Body.get_bool y body (bytes "muted") in
      if Body.is_bool y body (bytes "muted")
      then set_system_volume (if muted then pos 0 else p.volume) (record p { muted = muted })
      else p

  unfoldable pub volume_reply : SystemVolumePlugin → NetworkPacket y
  volume_reply p = packet y (bytes "kdeconnect.systemvolume") (
      set_bool y (bytes "enabled") true (
        set_bool y (bytes "muted") p.muted (
          set_int y (bytes "volume") p.volume
            (set_str y (bytes "name") (bytes "Output") (Body.empty y)))))

  unfoldable pub on_request :
      Option ℤ
      → JsonBody y
      → SystemVolumePlugin
      → SystemVolumePlugin × Bool × List (NetworkPacket y)
  on_request system body p =
      let p' = apply_muted body (apply_volume body p) in
      if Body.value_bool y body (bytes "requestSinks") false
      then (p, true, send_sink_list system ∷ [])
      else if not (Body.has y body (bytes "name"))
      then (p, false, [])
      else (p', true, volume_reply p' ∷ [])

  -- One object of the list of sinks.
  unfoldable pub sink_of : JsonBody y → SinkState
  sink_of s =
      let max_volume = Body.value_int y s (bytes "maxVolume") (pos 100) in
      record {
        name = Body.value_str y s (bytes "name") [];
        description = Body.value_str y s (bytes "description") [];
        volume = percent (Body.value_int y s (bytes "volume") (pos 0)) max_volume;
        max_volume = max_volume;
        is_muted = Body.value_bool y s (bytes "muted") false;
        is_default_output = Body.value_bool y s (bytes "enabled") false;
      }

  -- The new state of one sink.
  unfoldable pub refresh : JsonBody y → SinkState → SinkState
  refresh body s = record s {
    volume =
        if Body.is_num y body (bytes "volume")
        then percent (Body.get_int y body (bytes "volume")) s.max_volume
        else s.volume;
    is_muted =
        if Body.is_bool y body (bytes "muted")
        then Body.get_bool y body (bytes "muted")
        else s.is_muted;
    is_default_output =
        if Body.is_bool y body (bytes "enabled")
        then Body.get_bool y body (bytes "enabled")
        else s.is_default_output;
  }

  -- The loop over the sinks, which stops at the first with the name.
  unfoldable pub refresh_first : Text → JsonBody y → List SinkState → List SinkState
  refresh_first n body [] = []
  refresh_first n body (s ∷ ss) =
      let rest = refresh_first n body ss in
      if not (eq_text s.name n) then s ∷ rest else refresh body s ∷ ss

  unfoldable pub on_sinks : JsonBody y → List SinkState → List SinkState
  on_sinks body sinks =
      if Body.is_array y body (bytes "sinkList")
      then each_obj y body (bytes "sinkList") (λ acc s. acc ++ sink_of s ∷ []) []
      else if Body.has y body (bytes "name")
      then refresh_first (Body.get_str y body (bytes "name")) body sinks
      else sinks

  unfoldable pub on_packet_received :
      Option ℤ
      → NetworkPacket y
      → SystemVolumePlugin
      → SystemVolumePlugin × Bool × List (NetworkPacket y)
  on_packet_received system np p =
      if eq_text np.type (bytes "kdeconnect.systemvolume.request")
      then on_request system np.body p
      else if eq_text np.type (bytes "kdeconnect.systemvolume")
      then (record p { remote_sinks = on_sinks np.body p.remote_sinks }, true, [])
      else (p, false, [])

  unfoldable pub set_remote_sink : Text → ℤ → Bool → Bool → SystemVolumePlugin → NetworkPacket y
  set_remote_sink sink_name volume muted is_default_output p =
      let body = set_bool y (bytes "muted") muted (
        set_int y (bytes "volume") (raw_level volume (max_volume_of sink_name p.remote_sinks))
          (set_str y (bytes "name") sink_name (Body.empty y))) in
      packet y (bytes "kdeconnect.systemvolume.request")
        (if is_default_output then set_bool y (bytes "enabled") true body else body)
