-- ===== src/Plugins/Mpris/Updates.antt =====
-- What a packet changes of the player's state.
use kdeconnect_nx.Prelude.{
  ℕ, ◌+◌, ◌<◌, ◌^◌, Text, bytes, Bool, true, false, List, [], ◌∷◌, ◌++◌, ◌≡◌, ◌≢◌, arith, eq_text,
  eq_text_iff, is_empty, Bool-cases, inl, inr, not, ◌&&◌, All,
}
use kdeconnect_nx.Prelude.Int.{ℤ, pos, add_pos, ◌≤ℤ◌, wrap64_lem, leb_ℤ}
use kdeconnect_nx.Json.Yyjson.{Yyjson}
use kdeconnect_nx.Json.Body
use kdeconnect_nx.Json.Body.{JsonBody}
use kdeconnect_nx.Json.Iterate.{each_str}
use kdeconnect_nx.Packet.{NetworkPacket}
use kdeconnect_nx.Plugins.Mpris.{
  PlayerState, MprisPlugin, follow, update_fields, update_position, update_length, update_art,
  fetch_art, on_status, on_packet_received, set_position,
}

-- A position and a length that are known are not negative.
abbrev pub IsTimed : PlayerState → Type 0
IsTimed s = (pos 0 ≤ℤ s.position) × (pos 0 ≤ℤ s.length)

module _ (y : Yyjson) (url_hash : Text → Text) (img_exists : Text → Bool) where
  fetch_art-state :
      (player : Text) (np : NetworkPacket y) (p : MprisPlugin)
      → (fetch_art y url_hash img_exists player np p).0.state ≡ p.state
  unfolding fetch_art
  fetch_art-state player np p = ground arith

  fetch_art-lock :
      (player : Text) (np : NetworkPacket y) (p : MprisPlugin)
      → (fetch_art y url_hash img_exists player np p).0.seek_lock_until_ms ≡ p.seek_lock_until_ms
  unfolding fetch_art
  fetch_art-lock player np p = ground arith

  follow-IsTimed :
      (players : List Text) (p : MprisPlugin)
      → IsTimed p.state
      → IsTimed (follow y players p).0.state
  unfolding follow
  follow-IsTimed [] p h = h
  follow-IsTimed (front ∷ rest) p h = ground arith

  position-IsTimed :
      (now_ms lock : ℤ) (body : JsonBody y) (s : PlayerState)
      → IsTimed s
      → IsTimed (update_position y now_ms lock body (update_fields y body s))
  unfolding update_position update_fields
  position-IsTimed now_ms lock body s h = ground arith

  length-IsTimed :
      (body : JsonBody y) (s : PlayerState)
      → IsTimed s
      → IsTimed (update_art y url_hash img_exists body (update_length y body s))
  unfolding update_length update_art
  length-IsTimed body s h = ground arith

  status-IsTimed :
      (now_ms : ℤ) (np : NetworkPacket y) (p : MprisPlugin)
      → IsTimed p.state
      → IsTimed (on_status y url_hash img_exists now_ms np p).0.state
  unfolding on_status
  status-IsTimed now_ms np p h =
      let player = Body.get_str y np.body (bytes "player") in
      let timed = position-IsTimed now_ms p.seek_lock_until_ms np.body p.state h in
      elim (Bool-cases (not (is_empty p.current_player) && not (eq_text player p.current_player))) [
        | inl other ↦ rw other h
        | inr own ↦ rw (own, fetch_art-state player np) (length-IsTimed np.body _ timed)
      ]

  -- A packet that arrives, or a position that the user seeks, each at a time of the clock.
  pub data Event : Type 0 where
    arrives : ℤ → NetworkPacket y → Event
    seeks : ℤ → Text → ℤ → Event

  abbrev pub handle_event : Event → MprisPlugin → MprisPlugin
  handle_event (arrives now_ms np) p = (on_packet_received y url_hash img_exists now_ms np p).0
  handle_event (seeks now_ms player position_ms) p = (set_position y now_ms player position_ms p).0

  abbrev pub handle_events : List Event → MprisPlugin → MprisPlugin
  handle_events [] p = p
  handle_events (e ∷ es) p = handle_events es (handle_event e p)

  -- The user does not seek before the start.
  abbrev pub IsForward : Event → Type 0
  IsForward (arrives now_ms np) = Unit
  IsForward (seeks now_ms player position_ms) = pos 0 ≤ℤ position_ms

  -- Whatever packet arrives, a state whose position and length are not negative is followed by one
  -- whose position and length are not negative, though -1 stands for unknown values in packets.
  on_packet_received-IsTimed :
      (now_ms : ℤ) (np : NetworkPacket y) (p : MprisPlugin)
      → IsTimed p.state
      → IsTimed (on_packet_received y url_hash img_exists now_ms np p).0.state
  unfolding on_packet_received
  on_packet_received-IsTimed now_ms np p h =
      let listed =
        follow-IsTimed (each_str y np.body (bytes "playerList") (λ acc s. acc ++ s ∷ []) []) p h in
      let told = status-IsTimed now_ms np p h in ground arith

  set_position-IsTimed :
      (now_ms x : ℤ) (player : Text) (p : MprisPlugin)
      → IsTimed p.state
      → pos 0 ≤ℤ x
      → IsTimed (set_position y now_ms player x p).0.state
  unfolding set_position
  set_position-IsTimed now_ms x player p h forward = (forward, h.1)

  -- Whatever packets arrive, and whatever the user seeks, as long as no position sought is negative: a
  -- state whose position and length are not negative is followed by one whose position and length are
  -- not negative, though -1 stands for unknown values in packets.
  pub handle_events-IsTimed :
      (es : List Event) (p : MprisPlugin)
      → IsTimed p.state
      → All IsForward es
      → IsTimed (handle_events es p).state
  handle_events-IsTimed [] p h forward = h
  handle_events-IsTimed (arrives now_ms np ∷ es) p h forward =
      handle_events-IsTimed es (handle_event (arrives now_ms np) p)
        (on_packet_received-IsTimed now_ms np p h) forward.1
  handle_events-IsTimed (seeks now_ms player x ∷ es) p h forward =
      handle_events-IsTimed es (handle_event (seeks now_ms player x) p)
        (set_position-IsTimed now_ms x player p h forward.0) forward.1

  -- A status packet of a player other than the one that is followed changes nothing and sends nothing.
  pub on_packet_received-other_player :
      (now_ms : ℤ) (np : NetworkPacket y) (p : MprisPlugin)
      → eq_text np.type (bytes "kdeconnect.mpris") ≡ true
      → Body.has y np.body (bytes "playerList") ≡ false
      → Body.is_str y np.body (bytes "player") ≡ true
      → p.current_player ≢ []
      → Body.get_str y np.body (bytes "player") ≢ p.current_player
      → on_packet_received y url_hash img_exists now_ms np p ≡ (p, true, [])
  unfolding on_packet_received on_status
  on_packet_received-other_player now_ms np p type no_list named followed other =
      ground (arith, eq_text_iff (Body.get_str y np.body (bytes "player")) p.current_player)

  timed-locked :
      (now_ms lock : ℤ) (body : JsonBody y) (s : PlayerState)
      → leb_ℤ lock now_ms ≡ false
      → (update_art y url_hash img_exists body (
          update_length y body
            (update_position y now_ms lock body (update_fields y body s)))).position
        ≡ s.position
  unfolding update_art update_length update_position update_fields
  timed-locked now_ms lock body s early = ground arith

  status-locked :
      (now_ms : ℤ) (np : NetworkPacket y) (p : MprisPlugin)
      → leb_ℤ p.seek_lock_until_ms now_ms ≡ false
      → (on_status y url_hash img_exists now_ms np p).0.state.position ≡ p.state.position
  unfolding on_status
  status-locked now_ms np p early =
      elim (Bool-cases (
        not (is_empty p.current_player)
        && not (eq_text (Body.get_str y np.body (bytes "player")) p.current_player))) [
          | inl other ↦ rw other
          | inr own ↦
              rw (own, fetch_art-state (Body.get_str y np.body (bytes "player")) np)
                (timed-locked now_ms p.seek_lock_until_ms np.body p.state early)
        ]

  -- For half a second after the user has sought a position, in a clock below 2 ^ 62 milliseconds, no
  -- status packet moves the position away from it.
  pub set_position-locked :
      (t now : ℕ) (player : Text) (x : ℤ) (np : NetworkPacket y) (p : MprisPlugin)
      → t < 2 ^ 62
      → now < t + 500
      → Body.has y np.body (bytes "playerList") ≡ false
      → (on_packet_received y url_hash img_exists
          (pos now)
          np
          (set_position y (pos t) player x p).0).0.state.position
        ≡ x
  unfolding on_packet_received set_position
  set_position-locked t now player x np p small early no_list =
      let sought = (set_position y (pos t) player x p).0 in
      let until : sought.seek_lock_until_ms ≡ pos (t + 500) =
        rw (add_pos t 500, wrap64_lem (pos (t + 500)) (omega arith)) in
      let locked : leb_ℤ sought.seek_lock_until_ms (pos now) ≡ false = rw until (ground arith) in
      let kept = status-locked (pos now) np sought locked in ground arith
