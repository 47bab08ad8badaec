-- ===== src/Plugins/Share.antt =====
-- plugins/share_plugin.{h,cpp}: what another device shares. The pending addresses are shared by all
-- devices. The name of the session's device, if there is one, is an argument, and so is
-- `download_payload`, by the path that it is to write and whether it succeeds. The screenshots that are
-- sent the other way are calls of the console's services and are not modelled.
pub mod Paths
pub mod Urls
use kdeconnect_nx.Prelude.{
  ℕ, ◌+◌, ◌%◌, ◌^◌, Text, bytes, Bool, true, false, not, ◌&&◌, ◌||◌, Option, none, some, List, [],
  ◌∷◌, ◌++◌, if◌then◌else◌, ltb, ◌==◌, length, eq_text, is_empty,
}
use kdeconnect_nx.Prelude.Int.{ℤ, pos, ltb_ℤ, quot_ℤ}
use kdeconnect_nx.Json.Yyjson.{Yyjson}
use kdeconnect_nx.Json.Body
use kdeconnect_nx.Packet.{NetworkPacket, has_payload}
use kdeconnect_nx.Client.State.{Notification}
use kdeconnect_nx.Client.Key.{to_string}

pub record SharePlugin : Type 0 where
  pub pending_urls : List Text
  pub notification_id : ℕ

-- `base.find_last_of("/\\")` and the `substr` behind it: what follows the last separator, or the whole.
unfoldable pub after_last : Text → Text → Text
after_last found [] = found
after_last found (c ∷ cs) =
    if c == b'/' || c == b'\\' then after_last cs cs else after_last found cs

-- The path in the root of the card under which a file is saved.
unfoldable pub saved_path : Text → Text
saved_path filename =
    let base = after_last filename filename in
    b'/' ∷ (if is_empty base then bytes "received_file" else base)

unfoldable pub pop : List Text → List Text
pop [] = []
pop (u ∷ us) = us

unfoldable pub push_url : Text → List Text → List Text
push_url url us = (if ltb 1 (length us) then pop us else us) ++ url ∷ []

-- `post_notification`, named by `notification_id_.fetch_add(1)`.
unfoldable pub post :
    Text → Text → SharePlugin → List Notification → SharePlugin × List Notification
post device_name body p posted =
    let n : Notification = record {
      title = bytes "From " ++ device_name;
      body = body;
      id = to_string (pos p.notification_id);
    } in
    (record p { notification_id = (p.notification_id + 1) % 2 ^ 32 }, posted ++ n ∷ [])

module _ (y : Yyjson) (download_payload : Text → Bool) where
  unfoldable pub receive_file :
      Text → Text → NetworkPacket y → SharePlugin → SharePlugin × List Notification
  receive_file device_name filename np p =
      let announced =
        post device_name
          (bytes "Receiving file... ("
            ++ (to_string (quot_ℤ np.payload_size (pos 1024)) ++ bytes " KB)"))
          p [] in
      let (p', posted) = if ltb_ℤ (pos 1048576) np.payload_size then announced else (p, []) in
      let body =
        if download_payload (saved_path filename)
        then bytes "Saved: " ++ filename
        else bytes "Failed to save: " ++ filename in
      post device_name body p' posted

  unfoldable pub on_packet_received :
      Text → NetworkPacket y → SharePlugin → (SharePlugin × List Notification) × Bool
  on_packet_received device_name np p =
      let url = Body.get_str y np.body (bytes "url") in
      let text = Body.get_str y np.body (bytes "text") in
      let filename = Body.get_str y np.body (bytes "filename") in
      if not (eq_text np.type (bytes "kdeconnect.share.request"))
      then ((p, []), false)
      else if Body.is_str y np.body (bytes "url")
      then ((record p { pending_urls = push_url url p.pending_urls }, []), true)
      else if Body.is_str y np.body (bytes "text")
      then (post device_name text p [], true)
      else if Body.is_str y np.body (bytes "filename") && has_payload y np
      then (receive_file device_name filename np p, true)
      else ((p, []), false)
