-- ===== src/Plugins/Notifications/Posting.antt =====
-- `post_app_notification` and `post_notification` of plugins/notification_plugin.cpp: the file that the
-- overlay loader shows. `ctype` is that of the C locale.
pub mod Naming
use kdeconnect_nx.Prelude.{
  ℕ, ◌+◌, ◌*◌, ◌/◌, Text, bytes, Bool, true, false, not, ◌&&◌, ◌||◌, Option, none, some, List, [],
  ◌∷◌, ◌++◌, map, if◌then◌else◌, ltb, leb, ◌==◌, length, is_empty,
}
use kdeconnect_nx.Prelude.Int.{ℤ, pos, negsuc, ◌+ℤ◌, wrap32, eq_ℤ}
use kdeconnect_nx.Json.Yyjson.{Yyjson}
use kdeconnect_nx.Json.Body
use kdeconnect_nx.Json.Body.{JsonBody}
use kdeconnect_nx.Json.Setters.{set_int, set_str, dump}
use kdeconnect_nx.Storage.{Disk, write_file}
use kdeconnect_nx.Client.Key.{to_string}

abbrev pub notify_dir : Text
notify_dir = bytes "/config/ultrahand/notifications"

abbrev pub app_id : Text
app_id = bytes "kdeconnect"

-- What the plugin reads of the settings, and `PscMonitor::is_awake()`.
pub record Preferences : Type 0 where
  pub show_remote_messages : Bool
  pub show_icon : Bool
  pub show_time : Bool
  pub dynamic_font_size : Bool
  pub duration : ℤ
  pub font_size : ℤ
  pub style : ℤ
  pub is_awake : Bool

-- The disk, and the counter that names a notification without an id.
pub record Posts : Type 0 where
  pub disk : Disk
  pub counter : ℤ

abbrev pub is_between : ℕ → ℕ → ℕ → Bool
is_between low high c = leb low c && leb c high

unfoldable pub is_alnum : ℕ → Bool
is_alnum c = is_between b'0' b'9' c || is_between b'A' b'Z' c || is_between b'a' b'z' c

-- The loop of `sanitize_filename`, for one byte.
unfoldable pub sanitize : ℕ → ℕ
sanitize c = if is_alnum c || c == b'-' || c == b'_' then c else b'_'

unfoldable pub sanitize_filename : Text → Text
sanitize_filename s = map sanitize s

-- The title and the body, by `NotificationStyle`.
unfoldable pub layout : ℤ → Text → Text → Text → Text × Text
layout style app title text =
    let dot = 32 ∷ 194 ∷ 183 ∷ 32 ∷ [] in
    if eq_ℤ style (pos 1)
    then (app, title)
    else if eq_ℤ style (pos 2)
    then (if is_empty title then app else title, text)
    else if eq_ℤ style (pos 3)
    then (if is_empty title then app else title ++ (dot ++ app), text)
    else if eq_ℤ style (pos 4)
    then (if is_empty title then app else app ++ (dot ++ title), text)
    else if not (is_empty title) && not (is_empty text)
    then (app, title ++ (bytes ": " ++ text))
    else if not (is_empty title)
    then (app, title)
    else (app, text)

-- The size of the font by the length of the body, which is cast to `int`.
unfoldable pub dynamic_size : ℤ → ℕ
dynamic_size (negsuc n) = 24
dynamic_size (pos len) =
    let scaled = 2160 / len in if ltb 90 len then if ltb scaled 16 then 16 else scaled else 24

module _ (y : Yyjson) where
  unfoldable pub notify_body : Preferences → Text → Text → ℤ → JsonBody y
  notify_body s title body duration =
      let size =
        if s.dynamic_font_size
        then pos (dynamic_size (wrap32 (pos (length body))))
        else s.font_size in
      set_int y (bytes "font_size") size (
        set_str y (bytes "alignment") (bytes "left") (
          set_str y (bytes "split_type") (bytes "word") (
            set_str y (bytes "show_time") (if s.show_time then bytes "true" else bytes "false") (
              set_int y (bytes "duration") duration
                (set_str y (bytes "text") body (set_str y (bytes "title") title (Body.empty y)))))))

  -- Whether the file could be written is only logged.
  unfoldable pub post_notification : Preferences → Text → Text → Text → Text → ℤ → Posts → Posts
  post_notification s app title body id duration w =
      let uid = sanitize_filename id in
      let unnamed = is_empty uid in
      let name = if unnamed then to_string w.counter else uid in
      let path = notify_dir ++ (b'/' ∷ (app ++ (b'-' ∷ (name ++ bytes ".notify")))) in
      record {
        disk = (write_file w.disk path (dump y true (notify_body s title body duration))).0;
        counter = if unnamed then wrap32 (w.counter +ℤ pos 1) else w.counter;
      }

  unfoldable pub post_app_notification :
      Preferences → Text → Text → Text → Text → Text → Posts → Posts
  post_app_notification s id app title text icon_hash w =
      let app' =
        if s.show_icon && not (is_empty icon_hash) then app_id ++ (b'_' ∷ icon_hash) else app_id in
      let shown = layout s.style app title text in
      post_notification s app' shown.0 shown.1 id s.duration w
