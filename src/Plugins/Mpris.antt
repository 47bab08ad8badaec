-- ===== src/Plugins/Mpris.antt =====
-- plugins/mpris_plugin.cpp: what is known of the media player of the other device. The steady clock
-- in milliseconds is read once for an operation. The hash of a cover's address and the files of covers
-- are arguments, and what is asked of the cover cache is kept in order.
pub mod Position
pub mod Updates
use kdeconnect_nx.Prelude.{
  Text, bytes, Bool, true, false, not, ◌&&◌, ◌||◌, Option, none, some, List, [], ◌∷◌, ◌++◌,
  if◌then◌else◌, eq_text, is_empty,
}
use kdeconnect_nx.Prelude.Int.{ℤ, pos, ◌+ℤ◌, ◌-ℤ◌, ◌*ℤ◌, wrap64, ltb_ℤ, leb_ℤ, min_ℤ}
use kdeconnect_nx.Json.Yyjson.{Yyjson}
use kdeconnect_nx.Json.Body
use kdeconnect_nx.Json.Body.{JsonBody}
use kdeconnect_nx.Json.Iterate.{each_str}
use kdeconnect_nx.Json.Setters.{set_bool, set_int, set_i64, set_str}
use kdeconnect_nx.Packet.{NetworkPacket, packet, has_payload}

pub record PlayerState : Type 0 where
  pub can_pause : Bool
  pub can_play : Bool
  pub can_go_next : Bool
  pub can_go_previous : Bool
  pub is_playing : Bool
  pub can_seek : Bool
  pub title : Text
  pub artist : Text
  pub album : Text
  pub album_art_url : Text
  pub album_art_hash : Text
  pub volume : ℤ
  pub position : ℤ
  pub last_position_time_ms : ℤ
  pub length : ℤ

-- `PlayerState{}`
abbrev pub no_state : PlayerState
no_state = record {
  can_pause = false;
  can_play = false;
  can_go_next = false;
  can_go_previous = false;
  is_playing = false;
  can_seek = false;
  title = [];
  artist = [];
  album = [];
  album_art_url = [];
  album_art_hash = [];
  volume = pos 0;
  position = pos 0;
  last_position_time_ms = pos 0;
  length = pos 0;
}

-- The calls of `AlbumArt`: `lru_touch` and `download_raw` of a hash.
pub data ArtCall : Type 0 where
  lru_touch : Text → ArtCall
  download_raw : Text → ArtCall

pub record MprisPlugin : Type 0 where
  pub player_list : List Text
  pub current_player : Text
  pub state : PlayerState
  pub seek_lock_until_ms : ℤ
  pub art_calls : List ArtCall

unfoldable pub player_state : ℤ → MprisPlugin → PlayerState
player_state now_ms p =
    let s = p.state in
    let position = wrap64 (s.position +ℤ wrap64 (now_ms -ℤ s.last_position_time_ms)) in
    if s.is_playing && ltb_ℤ (pos 0) s.last_position_time_ms
    then record s {
      position = if ltb_ℤ (pos 0) s.length then min_ℤ position s.length else position;
    }
    else s

module _ (y : Yyjson) where
  unfoldable pub request : (JsonBody y → JsonBody y) → NetworkPacket y
  request fill = packet y (bytes "kdeconnect.mpris.request") (fill (Body.empty y))

  unfoldable pub request_player_list : NetworkPacket y
  request_player_list = request (set_bool y (bytes "requestPlayerList") true)

  unfoldable pub request_status : Text → NetworkPacket y
  request_status player = request (λ b.
      set_bool y (bytes "requestVolume") true
        (set_bool y (bytes "requestNowPlaying") true (set_str y (bytes "player") player b)))

  unfoldable pub send_action : Text → Text → NetworkPacket y
  send_action player action =
      request (λ b. set_str y (bytes "action") action (set_str y (bytes "player") player b))

  unfoldable pub set_volume : Text → ℤ → NetworkPacket y
  set_volume player volume =
      request (λ b. set_int y (bytes "setVolume") volume (set_str y (bytes "player") player b))

  unfoldable pub seek : Text → ℤ → NetworkPacket y
  seek player offset_ms = request (λ b.
      set_i64 y (bytes "Seek") (wrap64 (offset_ms *ℤ pos 1000))
        (set_str y (bytes "player") player b))

  unfoldable pub set_position : ℤ → Text → ℤ → MprisPlugin → MprisPlugin × NetworkPacket y
  set_position now_ms player position_ms p = (
    record p {
      state = record p.state { position = position_ms; last_position_time_ms = now_ms };
      seek_lock_until_ms = wrap64 (now_ms +ℤ pos 500);
    },
    request
        (λ b. set_i64 y (bytes "SetPosition") position_ms (set_str y (bytes "player") player b)),
  )

  unfoldable pub on_connected : Bool → List (NetworkPacket y)
  on_connected paired = if paired then request_player_list ∷ [] else []

  -- The new list, of which the first player is followed.
  unfoldable pub follow : List Text → MprisPlugin → MprisPlugin × List (NetworkPacket y)
  follow [] p = (record p { player_list = [] }, [])
  follow (front ∷ rest) p =
      if not (eq_text front p.current_player)
      then (
        record p {
          player_list = front ∷ rest;
          current_player = front;
          state = no_state;
          seek_lock_until_ms = pos 0;
        },
        if is_empty front then [] else request_status front ∷ [],
      )
      else (record p { player_list = front ∷ rest }, [])

  -- `if (has(key)) state = get_bool(key)`, and the same for strings.
  abbrev pub bool_or : JsonBody y → Text → Bool → Bool
  bool_or body key old = if Body.has y body key then Body.get_bool y body key else old

  abbrev pub str_or : JsonBody y → Text → Text → Text
  str_or body key old = if Body.is_str y body key then Body.get_str y body key else old

  -- The fields that are taken over as they are.
  unfoldable pub update_fields : JsonBody y → PlayerState → PlayerState
  update_fields body s = record s {
    is_playing = bool_or body (bytes "isPlaying") s.is_playing;
    can_pause = bool_or body (bytes "canPause") s.can_pause;
    can_play = bool_or body (bytes "canPlay") s.can_play;
    can_go_next = bool_or body (bytes "canGoNext") s.can_go_next;
    can_go_previous = bool_or body (bytes "canGoPrevious") s.can_go_previous;
    can_seek = bool_or body (bytes "canSeek") s.can_seek;
    title = str_or body (bytes "title") s.title;
    artist = str_or body (bytes "artist") s.artist;
    album = str_or body (bytes "album") s.album;
    volume =
        if Body.is_num y body (bytes "volume")
        then Body.get_int y body (bytes "volume")
        else s.volume;
  }

  unfoldable pub update_position : ℤ → ℤ → JsonBody y → PlayerState → PlayerState
  update_position now_ms lock body s =
      let p = Body.get_i64 y body (bytes "pos") in
      let co_length_bad =
        Body.is_num y body (bytes "length")
        && ltb_ℤ (Body.get_i64 y body (bytes "length")) (pos 0) in
      if Body.is_num y body (bytes "pos") && leb_ℤ lock now_ms
      then if ltb_ℤ (pos 0) p || not co_length_bad
        then if leb_ℤ (pos 0) p
          then record s { position = p; last_position_time_ms = now_ms }
          else s
        else s
      else s

  unfoldable pub update_length : JsonBody y → PlayerState → PlayerState
  update_length body s =
      let l = Body.get_i64 y body (bytes "length") in
      if Body.is_num y body (bytes "length")
      then if leb_ℤ (pos 0) l then record s { length = l } else s
      else s

  module _ (url_hash : Text → Text) (img_exists : Text → Bool) where
    unfoldable pub update_art : JsonBody y → PlayerState → PlayerState
    update_art body s =
        let new_url = Body.get_str y body (bytes "albumArtUrl") in
        if Body.is_str y body (bytes "albumArtUrl")
        then record s {
          album_art_url = new_url;
          album_art_hash = if is_empty new_url then [] else url_hash new_url;
        }
        else s

    -- The cover: it is known, comes with this packet, or is asked for.
    unfoldable pub fetch_art :
        Text → NetworkPacket y → MprisPlugin → MprisPlugin × List (NetworkPacket y)
    fetch_art player np p =
        let url = p.state.album_art_url in
        let hash = p.state.album_art_hash in
        if is_empty hash
        then (p, [])
        else if img_exists hash
        then (record p { art_calls = p.art_calls ++ lru_touch hash ∷ [] }, [])
        else if Body.value_bool y np.body (bytes "transferringAlbumArt") false && has_payload y np
        then (record p { art_calls = p.art_calls ++ download_raw hash ∷ [] }, [])
        else if not (is_empty url)
        then (
          p,
          request (λ b. set_str y (bytes "albumArtUrl") url (set_str y (bytes "player") player b))
              ∷ [],
        )
        else (p, [])

    -- A status packet, of the player that it names.
    unfoldable pub on_status :
        ℤ → NetworkPacket y → MprisPlugin → MprisPlugin × List (NetworkPacket y)
    on_status now_ms np p =
        let player = Body.get_str y np.body (bytes "player") in
        let timed =
          update_position now_ms p.seek_lock_until_ms np.body (update_fields np.body p.state) in
        let state = update_art np.body (update_length np.body timed) in
        if not (is_empty p.current_player) && not (eq_text player p.current_player)
        then (p, [])
        else fetch_art player np (record p { state = state })

    unfoldable pub on_packet_received :
        ℤ → NetworkPacket y → MprisPlugin → MprisPlugin × Bool × List (NetworkPacket y)
    on_packet_received now_ms np p =
        let players = each_str y np.body (bytes "playerList") (λ acc s. acc ++ s ∷ []) [] in
        let (p1, sent1) = follow players p in
        let (p2, sent2) = on_status now_ms np p in
        if not (eq_text np.type (bytes "kdeconnect.mpris"))
        then (p, false, [])
        else if Body.has y np.body (bytes "playerList")
        then (p1, true, sent1)
        else if Body.is_str y np.body (bytes "player")
        then (p2, true, sent2)
        else (p, false, [])
