-- ===== src/Storage/Paired.antt =====
-- What is loaded of a device after others were saved and removed.
use kdeconnect_nx.Prelude.{
  Text, bytes, true, Option, none, some, List, [], ◌∷◌, ◌≡◌, arith, if◌then◌else◌, eq_text,
  eq_text_iff, lookup, lookup-erase, is_empty, c_str,
}
use kdeconnect_nx.Json.Yyjson.{Yyjson}
use kdeconnect_nx.Json.Body
use kdeconnect_nx.Json.Body.{JsonBody}
use kdeconnect_nx.Identity.{DeviceInfo}
use kdeconnect_nx.Storage.{
  Disk, PairedDeviceInfo, file_exists, read_file, paired_path, paired_of, load_paired_device,
  remove_paired_device,
}
use kdeconnect_nx.Storage.Paths.{eq_text-paired_path}

-- What the file of a device keeps: all but its capabilities.
abbrev pub kept : DeviceInfo → Text → PairedDeviceInfo
kept info pem = record {
  info = record info { incoming_capabilities = []; outgoing_capabilities = [] };
  certificate_pem = pem;
}

module _ (y : Yyjson) (base : Text) where
  open y use {Val}

  abbrev paired_fields : DeviceInfo → Text → List (Text × Val)
  paired_fields info pem =
      (bytes "deviceId", y.mut_strcpy (c_str info.id))
      ∷ (bytes "deviceName", y.mut_strcpy (c_str info.name))
      ∷ (bytes "deviceType", y.mut_strcpy (c_str info.type))
      ∷ (bytes "protocolVersion", y.mut_int info.protocol_version)
      ∷ (bytes "certificatePem", y.mut_strcpy (c_str pem))
      ∷ []

  -- Loading depends on the contents of the device's file alone.
  load_of : Text → Option Text → Option PairedDeviceInfo
  load_of j none = none
  load_of j (some s) = if is_empty s then none else paired_of y base j (Body.parse y s)

  load_lem :
      (d : Disk) (j : Text)
      → load_paired_device y base d j ≡ load_of j (lookup (paired_path base j) d.files)
  unfolding load_paired_device load_of file_exists read_file
  load_lem d j = ground arith

  -- After a device is removed, where its file can be, nothing is loaded of it, and every other device
  -- is as before.
  pub load-remove :
      (d : Disk) (id j : Text)
      → d.can_remove (paired_path base id) ≡ true
      → load_paired_device y base (remove_paired_device base d id) j
        ≡ (if eq_text id j then none else load_paired_device y base d j)
  unfolding remove_paired_device file_exists load_of
  load-remove d id j can =
      rw (load_lem _ j, load_lem d j)
        (ground (
          arith,
          lookup-erase (paired_path base id) (paired_path base j) d.files,
          eq_text-paired_path base id j,
          eq_text_iff id j,
        ))
