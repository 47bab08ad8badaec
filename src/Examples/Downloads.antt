-- ===== src/Examples/Downloads.antt =====
-- Downloads, notifications and shared files at concrete inputs.
use kdeconnect_nx.Prelude.{
  Text, bytes, Bool, true, false, some, List, [], ◌∷◌, ◌≡◌, ◌⊎◌, refl, arith, take, eq_text, lookup,
  insert, erase, All, is_empty, not, ◌||◌, ◌==◌, ap, sym, ◌∙◌,
}
use kdeconnect_nx.Prelude.Int.{pos}
use kdeconnect_nx.Json.Body
use kdeconnect_nx.Json.Body.{JsonBody, field, upsert}
use kdeconnect_nx.Json.Setters.{set_str}
use kdeconnect_nx.Packet.{NetworkPacket, packet}
use kdeconnect_nx.Storage.{Disk, remove_file}
use kdeconnect_nx.Examples.TreeJson.{tree_json}
use kdeconnect_nx.Examples.Devices.{blank}
use kdeconnect_nx.Client.Download.{
  Answer, got, retry, Setup, flush_chunk, download_loop, finish, download_payload,
}
use kdeconnect_nx.Client.Download.Whole.{EndsOnCourse, download_loop-EndsOnCourse}
use kdeconnect_nx.Client.Download.Finish.{Left, download_payload-Left}
use kdeconnect_nx.Client.Download.Arrival.{download_payload-completes}
use kdeconnect_nx.Client.Upload.{uploaded, upload_loop}
use kdeconnect_nx.Client.Upload.Transfer.{upload_download}
use kdeconnect_nx.Plugins.Notifications.{NotificationPlugin, on_packet_received}
use kdeconnect_nx.Plugins.Notifications.Posting.{Preferences, Posts}
use kdeconnect_nx.Plugins.Notifications.Bounds.{IsBounded, on_packet_received-IsBounded}
use kdeconnect_nx.Plugins.Share
use kdeconnect_nx.Plugins.Share.{SharePlugin, saved_path}
use kdeconnect_nx.Plugins.Share.Paths.{IsInName, saved_path-IsInName, on_packet_received-InRoot}

-- A payload of three bytes, of which two arrive after a timeout and then one.
abbrev reads_of_three : List (Bool × Answer)
reads_of_three = (false, retry) ∷ (false, got 2) ∷ (false, got 5) ∷ (false, got 1) ∷ []

abbrev ready : Setup
ready = record {
  has_session = true;
  has_socket = true;
  has_address = true;
  connects = true;
  handshakes = true;
  has_file_system = true;
  creates = true;
  opens = true;
}

-- The chunk holds two bytes, so that it is written twice.
download_loop-EndsOnCourse_example :
    EndsOnCourse 2
      (λ n. true)
      (bytes "abc")
      3
      (download_loop 2
        (λ n. true)
        reads_of_three
        (bytes "abc")
        (record { written = []; chunk = []; remaining = 3 }))
download_loop-EndsOnCourse_example =
    download_loop-EndsOnCourse 2 (λ n. true) (bytes "abc") 3 reads_of_three (bytes "abc")
      (record { written = []; chunk = []; remaining = 3 })
      (record { kept = refl; counted = refl; fits = omega arith })

-- The peer hangs up after two bytes.
cut_short :
    download_payload ready
      (λ n. true)
      ((false, got 2) ∷ (false, got 1) ∷ [])
      false
      (1 ∷ 2 ∷ [])
      3
      (b'/' ∷ b'f' ∷ [])
      blank
    ≡ some (blank, false)
unfolding download_payload download_loop flush_chunk finish remove_file insert erase eq_text
cut_short = refl

download_payload-Left_example :
    Left (b'/' ∷ b'f' ∷ []) (1 ∷ 2 ∷ []) 3 (blank, false)
    ⊎ (◌≡◌ {A = Disk × Bool} (blank, false) (blank, false))
download_payload-Left_example =
    download_payload-Left ready (λ n. true) ((false, got 2) ∷ (false, got 1) ∷ []) false
      (1 ∷ 2 ∷ []) 3 (b'/' ∷ b'f' ∷ []) blank (blank, false) refl refl cut_short

download_payload-completes_example :
    (d : Disk) × (download_payload ready
        (λ n. true)
        reads_of_three
        false
        (bytes "abcd")
        3
        (bytes "/f")
        blank
      ≡ some (d, true))
    × (lookup (bytes "/f") d.files ≡ some (take 3 (bytes "abcd")))
unfolding bytes
download_payload-completes_example =
    download_payload-completes ready (λ n. true) reads_of_three (bytes "abcd") 3 (bytes "/f") blank
      refl refl (λ n. refl)
      (refl, ((refl, omega arith), ((refl, omega arith), ((refl, omega arith), tt)))) (omega arith)
      (omega arith)

abbrev preferences : Preferences
preferences = record {
  show_remote_messages = true;
  show_icon = true;
  show_time = true;
  dynamic_font_size = false;
  duration = pos 4000;
  font_size = pos 22;
  style = pos 0;
  is_awake = true;
}

abbrev message : NetworkPacket tree_json
message = packet tree_json (bytes "kdeconnect.notification") (
    set_str tree_json (bytes "payloadHash") (bytes "h")
      (set_str tree_json (bytes "id") (bytes "1") (Body.empty tree_json)))

abbrev quiet : NotificationPlugin
quiet = record { app_icon_hash = []; posted_ids = [] }

abbrev nothing_posted : Posts
nothing_posted = record { disk = blank; counter = pos 0 }

on_packet_received-IsBounded_example :
    IsBounded
      (on_packet_received tree_json (λ h d. d) preferences 0 5 message quiet nothing_posted).0.0
on_packet_received-IsBounded_example =
    on_packet_received-IsBounded tree_json (λ h d. d) preferences 0 5 message quiet nothing_posted
      (omega arith) (record { hashes = omega arith; posted = omega arith })

-- A name with folders in it, which would lead out of the root of the card.
saved_path-IsInName_example :
    (name : Text) × (saved_path (bytes "../a\\b.txt") ≡ b'/' ∷ name)
    × All IsInName name
    × (is_empty name ≡ false)
saved_path-IsInName_example = saved_path-IsInName (bytes "../a\\b.txt")

abbrev shared : NetworkPacket tree_json
shared = record message {
  type = bytes "kdeconnect.share.request";
  body = set_str tree_json (bytes "filename") (bytes "../a/b.txt") (Body.empty tree_json);
  payload_size = pos 3;
  payload_port = pos 1739;
}

abbrev sharing : SharePlugin
sharing = record { pending_urls = []; notification_id = 0 }

abbrev has_slash : Text → Bool
has_slash [] = false
has_slash (c ∷ name) = c == b'/' || has_slash name

-- A download fails where the path has a second slash.
abbrev in_root : Text → Bool
in_root [] = false
in_root (c ∷ name) = not (has_slash name)

in_root_lem : (name : Text) → All IsInName name → true ≡ in_root (b'/' ∷ name)
in_root_lem [] plain = refl
in_root_lem (c ∷ name) plain = ground (arith, plain.0, in_root_lem name plain.1)

on_packet_received-InRoot_example :
    Share.on_packet_received tree_json (λ path. true) (bytes "phone") shared sharing
    ≡ Share.on_packet_received tree_json in_root (bytes "phone") shared sharing
on_packet_received-InRoot_example =
    on_packet_received-InRoot tree_json (λ path. true) in_root (bytes "phone") shared sharing
      (λ path h. in_root_lem h.0 h.2 ∙ ap in_root (sym h.1))

-- The file has a byte more than is announced, and the reader hands out two bytes at first.
all_sent : upload_loop (λ t. true) (2 ∷ 5 ∷ []) (1 ∷ 2 ∷ 3 ∷ 4 ∷ []) 3 ≡ uploaded (1 ∷ 2 ∷ 3 ∷ []) 0
unfolding upload_loop
all_sent = refl

abbrev with_file : Disk
with_file = record blank { files = (b'/' ∷ b'f' ∷ [], 1 ∷ 2 ∷ 3 ∷ []) ∷ [] }

all_saved :
    download_payload ready
      (λ n. true)
      reads_of_three
      false
      (1 ∷ 2 ∷ 3 ∷ [])
      3
      (b'/' ∷ b'f' ∷ [])
      blank
    ≡ some (with_file, true)
unfolding download_payload download_loop flush_chunk finish remove_file insert erase eq_text
all_saved = refl

upload_download_example :
    lookup (b'/' ∷ b'f' ∷ []) with_file.files ≡ some (take 3 (1 ∷ 2 ∷ 3 ∷ 4 ∷ []))
upload_download_example =
    upload_download (λ t. true) (2 ∷ 5 ∷ []) (1 ∷ 2 ∷ 3 ∷ 4 ∷ []) (1 ∷ 2 ∷ 3 ∷ []) 3 ready
      (λ n. true) reads_of_three false (b'/' ∷ b'f' ∷ []) blank with_file all_sent refl all_saved
