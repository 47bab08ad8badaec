-- ===== src/Storage.antt =====
-- sysmodule/src/utils/storage.{h,cpp}: files, and the paired devices kept in them. The functions that
-- have a branch for the console and one for a desktop follow the desktop's, which is on `stdio`. A disk
-- maps paths to contents, and tells paths apart by their texts; writing and removing a file can fail.
pub mod Paths
pub mod Folder
pub mod Paired
use kdeconnect_nx.Prelude.{
  Text, bytes, Bool, true, false, not, ◌||◌, Option, none, some, List, [], ◌∷◌, ◌++◌, if◌then◌else◌,
  is_some, is_empty, lookup, insert, erase,
}
use kdeconnect_nx.Json.Yyjson.{Yyjson}
use kdeconnect_nx.Json.Body
use kdeconnect_nx.Json.Body.{JsonBody}
use kdeconnect_nx.Json.Setters.{set_int, set_str, dump}
use kdeconnect_nx.Identity.{DeviceInfo, k_protocol_version}

pub record Disk : Type 0 where
  pub files : List (Text × Text)
  pub can_write : Text → Bool
  -- What a write that fails leaves at a path: `none` where the file could not be opened, and else the
  -- part of the text that was written.
  pub failed_write : Text → Text → Option Text
  pub can_remove : Text → Bool

-- `stat(path) == 0`
unfoldable pub file_exists : Disk → Text → Bool
file_exists d path = is_some (lookup path d.files)

contents : Option Text → Text
contents none = []
contents (some text) = if is_empty text then [] else text

unfoldable pub read_file : Disk → Text → Text
unfolding contents
read_file d path = contents (lookup path d.files)

left_over : Text → Option Text → Disk → Disk
left_over path none d = d
left_over path (some part) d = record d { files = insert path part d.files }

unfoldable pub write_file : Disk → Text → Text → Disk × Bool
unfolding left_over
write_file d path text =
    if not (d.can_write path)
    then (left_over path (d.failed_write path text) d, false)
    else (record d { files = insert path text d.files }, true)

-- `remove`, and `fsFsDeleteFile`: whether the file could be removed is not looked at.
unfoldable pub remove_file : Text → Disk → Disk
remove_file path d = record d { files = if d.can_remove path then erase path d.files else d.files }

unfoldable pub paired_path : Text → Text → Text
paired_path base device_id = base ++ (bytes "/paired/" ++ (device_id ++ bytes ".json"))

pub record PairedDeviceInfo : Type 0 where
  pub info : DeviceInfo
  pub certificate_pem : Text

module _ (y : Yyjson) (base : Text) where
  paired_of : Text → JsonBody y → Option PairedDeviceInfo
  paired_of device_id b =
      if not (Body.has y b (bytes "deviceId")) || not (Body.has y b (bytes "certificatePem"))
      then none
      else some (record {
        info = record {
          id = Body.value_str y b (bytes "deviceId") device_id;
          name = Body.value_str y b (bytes "deviceName") (bytes "unknown");
          type = Body.value_str y b (bytes "deviceType") (bytes "desktop");
          protocol_version = Body.value_int y b (bytes "protocolVersion") k_protocol_version;
          incoming_capabilities = [];
          outgoing_capabilities = [];
        };
        certificate_pem = Body.value_str y b (bytes "certificatePem") [];
      })

  unfoldable pub load_paired_device : Disk → Text → Option PairedDeviceInfo
  unfolding paired_of
  load_paired_device d device_id =
      let path = paired_path base device_id in
      let content = read_file d path in
      if not (file_exists d path)
      then none
      else if is_empty content
      then none
      else paired_of device_id (Body.parse y content)

  unfoldable pub paired_body : DeviceInfo → Text → JsonBody y
  paired_body info certificate_pem = set_str y (bytes "certificatePem") certificate_pem (
      set_int y (bytes "protocolVersion") info.protocol_version (
        set_str y (bytes "deviceType") info.type (
          set_str y (bytes "deviceName") info.name
            (set_str y (bytes "deviceId") info.id (Body.empty y)))))

  -- Whether the file could be written is not looked at.
  unfoldable pub save_paired_device : Disk → DeviceInfo → Text → Disk
  save_paired_device d info certificate_pem =
      (write_file d (paired_path base info.id) (dump y true (paired_body info certificate_pem))).0

unfoldable pub remove_paired_device : Text → Disk → Text → Disk
unfolding remove_file
remove_paired_device base d device_id =
    let path = paired_path base device_id in if file_exists d path then remove_file path d else d
