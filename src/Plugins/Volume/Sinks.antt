-- ===== src/Plugins/Volume/Sinks.antt =====
-- What an update of one sink changes.
use kdeconnect_nx.Prelude.{
  Text, bytes, true, false, Option, none, some, List, [], ◌∷◌, ◌≡◌, refl, arith, eq_text,
  eq_text_iff, if◌then◌else◌, map,
}
use kdeconnect_nx.Prelude.Int.{ℤ}
use kdeconnect_nx.Json.Yyjson.{Yyjson}
use kdeconnect_nx.Json.Body
use kdeconnect_nx.Json.Body.{JsonBody}
use kdeconnect_nx.Packet.{NetworkPacket}
use kdeconnect_nx.Plugins.Volume.{
  SinkState, SystemVolumePlugin, refresh, refresh_first, on_sinks, on_packet_received,
}

-- The sink that a name stands for: the first that has it.
abbrev pub sink_named : Text → List SinkState → Option SinkState
sink_named n [] = none
sink_named n (s ∷ ss) = if eq_text s.name n then some s else sink_named n ss

abbrev pub mapped : (SinkState → SinkState) → Option SinkState → Option SinkState
mapped f none = none
mapped f (some s) = some (f s)

module _ (y : Yyjson) where
  sink_named-refresh_first :
      (n m : Text) (body : JsonBody y) (ss : List SinkState)
      → sink_named m (refresh_first y n body ss)
        ≡ (if eq_text n m then mapped (refresh y body) (sink_named n ss) else sink_named m ss)
  unfolding refresh_first refresh
  sink_named-refresh_first n m body [] = ground arith
  sink_named-refresh_first n m body (s ∷ ss) = ground (
    arith,
    sink_named-refresh_first n m body ss,
    eq_text_iff s.name n,
    eq_text_iff n m,
    eq_text_iff s.name m,
  )

  names-refresh_first :
      (n : Text) (body : JsonBody y) (ss : List SinkState)
      → map (λ s. s.name) (refresh_first y n body ss) ≡ map (λ s. s.name) ss
  unfolding refresh_first refresh
  names-refresh_first n body [] = refl
  names-refresh_first n body (s ∷ ss) = ground (arith, names-refresh_first n body ss)

  -- A packet that names one sink, and brings no list, changes the sink of that name as its fields say,
  -- and no other; the sinks keep their names and their order. Nothing is sent, and the console's own
  -- volume is as before.
  pub on_packet_received-one_sink :
      (system : Option ℤ) (np : NetworkPacket y) (p : SystemVolumePlugin) (m : Text)
      → eq_text np.type (bytes "kdeconnect.systemvolume.request") ≡ false
      → eq_text np.type (bytes "kdeconnect.systemvolume") ≡ true
      → Body.is_array y np.body (bytes "sinkList") ≡ false
      → Body.has y np.body (bytes "name") ≡ true
      → (sinks : List SinkState) × (on_packet_received y system np p
          ≡ (record p { remote_sinks = sinks }, true, []))
        × (map (λ s. s.name) sinks ≡ map (λ s. s.name) p.remote_sinks)
        × (sink_named m sinks ≡ (
            if eq_text (Body.get_str y np.body (bytes "name")) m
            then mapped
                (refresh y np.body)
                (sink_named (Body.get_str y np.body (bytes "name")) p.remote_sinks)
            else sink_named m p.remote_sinks))
  unfolding on_packet_received on_sinks
  on_packet_received-one_sink system np p m request update one named =
      let n = Body.get_str y np.body (bytes "name") in
      (
        refresh_first y n np.body p.remote_sinks,
        rw (request, update, one, named),
        names-refresh_first n np.body p.remote_sinks,
        sink_named-refresh_first n m np.body p.remote_sinks,
      )
