-- ===== src/Plugins/Notifications.antt =====
-- plugins/notification_plugin.{h,cpp}, as it is compiled for the console. The steady clock, in
-- nanoseconds, and the settings are arguments, and so is `write_app_icon`, by what it does to the disk:
-- its decoding of a PNG file is not modelled. In an unordered map no order of the entries is promised:
-- which entry stands first in `m_app_icon_hash` is an argument, and among the oldest of `m_posted_ids`
-- the first of the list goes.
pub mod Posting
pub mod Bounds
pub mod Repeats
use kdeconnect_nx.Prelude.{
  ℕ, zero, suc, ◌+◌, Text, bytes, Bool, true, false, not, ◌&&◌, ◌||◌, Option, none, some, List, [],
  ◌∷◌, ◌++◌, if◌then◌else◌, ltb, leb, length, eq_text, is_empty, is_some, lookup, insert, erase,
}
use kdeconnect_nx.Json.Yyjson.{Yyjson}
use kdeconnect_nx.Json.Body
use kdeconnect_nx.Json.Setters.{set_bool}
use kdeconnect_nx.Packet.{NetworkPacket, packet, has_payload}
use kdeconnect_nx.Storage.{Disk, file_exists}
use kdeconnect_nx.Plugins.Notifications.Posting.{
  Preferences, Posts, sanitize_filename, notify_dir, app_id, post_app_notification,
}

abbrev pub notify_flag : Text
notify_flag = bytes "/config/ultrahand/flags/NOTIFICATIONS.flag"

abbrev pub max_posted_ids : ℕ
max_posted_ids = 10

abbrev pub max_app_icon_hashes : ℕ
max_app_icon_hashes = 100

pub record PostedEntry : Type 0 where
  pub has_icon : Bool
  pub time : Text
  pub when : ℕ

pub record NotificationPlugin : Type 0 where
  pub app_icon_hash : List (Text × Text)
  pub posted_ids : List (Text × PostedEntry)

-- `m.erase(m.begin())`, where the entry at that place stands first.
unfoldable pub erase_at {ℓ} : {A : Type ℓ} → ℕ → List A → List A
erase_at i [] = []
erase_at zero (x ∷ m) = m
erase_at (suc i) (x ∷ m) = x ∷ erase_at i m

known_icon : Option Text → Text
known_icon none = []
known_icon (some hash) = hash

-- The icon's hash of a notification, from the packet or as it was last known for the app.
unfoldable pub remember_icon : ℕ → Text → Text → List (Text × Text) → Text × List (Text × Text)
unfolding known_icon
remember_icon begin app hash m =
    let kept =
      if leb max_app_icon_hashes (length m) && not (is_some (lookup app m))
      then erase_at begin m
      else m in
    if is_empty hash then (known_icon (lookup app m), m) else (hash, insert app hash kept)

-- The loop for the oldest entry, with the one that it has.
unfoldable pub oldest_from : Text × PostedEntry → List (Text × PostedEntry) → Text × PostedEntry
oldest_from e [] = e
oldest_from e (f ∷ m) = if ltb f.1.when e.1.when then oldest_from f m else oldest_from e m

unfoldable pub erase_oldest : List (Text × PostedEntry) → List (Text × PostedEntry)
erase_oldest [] = []
erase_oldest (e ∷ m) = erase (oldest_from e m).0 (e ∷ m)

-- What is done about a packet whose id may be posted already.
pub data Verdict : Type 0 where
  skip : Verdict
  upgrade fresh : List (Text × PostedEntry) → Verdict

unfoldable pub remember : Text → Bool → Text → ℕ → List (Text × PostedEntry) → Verdict
remember id icon time now m =
    let kept = if leb max_posted_ids (length m) then erase_oldest m else m in
    fresh (insert id (record { has_icon = icon; time = time; when = now }) kept)

unfoldable pub debounce :
    Text → Bool → Text → ℕ → Option PostedEntry → List (Text × PostedEntry) → Verdict
debounce id icon time now none m = remember id icon time now m
debounce id icon time now (some e) m =
    if eq_text e.time time && ltb now (e.when + 2000000000)
    then if e.has_icon || not icon
      then skip
      else upgrade (insert id (record e { has_icon = true }) m)
    else remember id icon time now m

-- `remove` of the file that was posted with the default icon.
unfoldable pub remove_posted : Text → Disk → Disk
remove_posted id d =
    let uid = sanitize_filename id in
    if is_empty uid then d else record d {
      files = erase (notify_dir ++ (b'/' ∷ (app_id ++ (b'-' ∷ (uid ++ bytes ".notify"))))) d.files;
    }

module _ (y : Yyjson) where
  unfoldable pub request_active_notifications : NetworkPacket y
  request_active_notifications =
      packet y (bytes "kdeconnect.notification.request")
        (set_bool y (bytes "request") true (Body.empty y))

  unfoldable pub on_connected : Bool → List (NetworkPacket y)
  on_connected paired = if paired then request_active_notifications ∷ [] else []

  -- The end of `on_packet_received`: the notification is shown.
  unfoldable pub show : Preferences → Text → Text → NetworkPacket y → Posts → Posts
  show s id icon_hash np w =
      let app = Body.value_str y np.body (bytes "appName") (bytes "Unknown") in
      let title = Body.value_str y np.body (bytes "title") [] in
      let text = Body.value_str y np.body (bytes "text") [] in
      if Body.value_bool y np.body (bytes "silent") false
      then w
      else if not s.show_remote_messages
      then w
      else if not (file_exists w.disk notify_flag)
      then w
      else if not s.is_awake
      then w
      else post_app_notification y s id app title text icon_hash w

  -- Without an id nothing is looked up or kept.
  unfoldable pub verdict : Text → Text → NetworkPacket y → ℕ → NotificationPlugin → Verdict
  verdict id icon_hash np now p =
      let time = Body.value_str y np.body (bytes "time") [] in
      if is_empty id
      then fresh p.posted_ids
      else debounce id (not (is_empty icon_hash)) time now (lookup id p.posted_ids) p.posted_ids

  unfoldable pub act :
      Preferences
      → Text
      → Text
      → NetworkPacket y
      → Verdict
      → NotificationPlugin
      → Posts
      → NotificationPlugin × Posts
  act s id icon_hash np skip p w = (p, w)
  act s id icon_hash np (upgrade m) p w =
      let cleared = record w { disk = remove_posted id w.disk } in
      (record p { posted_ids = m }, show s id icon_hash np cleared)
  act s id icon_hash np (fresh m) p w = (record p { posted_ids = m }, show s id icon_hash np w)

  unfoldable pub fetch_icon : (Text → Disk → Disk) → Text → NetworkPacket y → Posts → Posts
  fetch_icon write_app_icon icon_hash np w =
      if has_payload y np && not (is_empty icon_hash)
      then record w { disk = write_app_icon icon_hash w.disk }
      else w

  unfoldable pub on_notification :
      (Text → Disk → Disk)
      → Preferences
      → ℕ
      → ℕ
      → NetworkPacket y
      → NotificationPlugin
      → Posts
      → NotificationPlugin × Posts
  on_notification write_app_icon s begin now np p w =
      let app = Body.value_str y np.body (bytes "appName") (bytes "Unknown") in
      let id = Body.value_str y np.body (bytes "id") [] in
      let hash = Body.value_str y np.body (bytes "payloadHash") [] in
      let (icon_hash, hashes) = remember_icon begin app hash p.app_icon_hash in
      let p1 = record p { app_icon_hash = hashes } in
      act s id icon_hash np (verdict id icon_hash np now p1) p1
        (fetch_icon write_app_icon icon_hash np w)

  unfoldable pub on_packet_received :
      (Text → Disk → Disk)
      → Preferences
      → ℕ
      → ℕ
      → NetworkPacket y
      → NotificationPlugin
      → Posts
      → (NotificationPlugin × Posts) × Bool
  on_packet_received write_app_icon s begin now np p w =
      let cancel_id = Body.value_str y np.body (bytes "id") [] in
      let cancelled = record p { posted_ids = erase cancel_id p.posted_ids } in
      let done = on_notification write_app_icon s begin now np p w in
      if not (eq_text np.type (bytes "kdeconnect.notification"))
      then ((p, w), false)
      else if Body.value_bool y np.body (bytes "isCancel") false
      then ((cancelled, w), true)
      else (done, true)
