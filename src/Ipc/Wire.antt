-- ===== src/Ipc/Wire.antt =====
-- common/src/kdec/ipc.h: the layouts of what goes over the wire, as bytes at their offsets. The caller
-- is the same machine, so numbers are in little-endian order.
pub mod Fields
pub mod RoundTrip
use kdeconnect_nx.Prelude.{
  ℕ, zero, suc, ◌+◌, ◌-◌, ◌*◌, ◌/◌, ◌%◌, ◌^◌, Text, c_str, Bool, true, false, [], ◌∷◌, ◌++◌, ◌==◌,
  not, if◌then◌else◌, take, drop, get_or,
}
use kdeconnect_nx.Prelude.Int.{ℤ, pos, pattern_of, wrap32, wrap64}

abbrev pub kdec_device_id_max : ℕ
kdec_device_id_max = 64

abbrev pub kdec_device_name_max : ℕ
kdec_device_name_max = 128

abbrev pub kdec_text_max : ℕ
kdec_text_max = 256

abbrev pub kdec_command_id_max : ℕ
kdec_command_id_max = 64

abbrev pub kdec_command_name_max : ℕ
kdec_command_name_max = 64

abbrev pub kdec_sink_name_max : ℕ
kdec_sink_name_max = 64

abbrev pub kdec_sink_desc_max : ℕ
kdec_sink_desc_max = 128

-- An array of `n` bytes that starts with a text, and is filled up with zeros.
unfoldable pub pad_to : ℕ → Text → Text
pad_to zero t = []
pad_to (suc n) [] = 0 ∷ pad_to n []
pad_to (suc n) (c ∷ t) = c ∷ pad_to n t

-- `strncpy(field, s.c_str(), n - 1)` into an array of `n` zeros.
unfoldable pub strncpy : ℕ → Text → Text
strncpy n s = pad_to n (take (n - 1) (c_str s))

-- `std::string(field, strnlen(field, n))`, for the field at an offset.
unfoldable pub field_text : ℕ → ℕ → Text → Text
field_text offset n bytes_in = c_str (take n (drop offset bytes_in))

unfoldable pub le_bytes : ℕ → ℕ → Text
le_bytes zero v = []
le_bytes (suc n) v = v % 256 ∷ le_bytes n (v / 256)

unfoldable pub of_le : Text → ℕ
of_le [] = 0
of_le (c ∷ t) = c + 256 * of_le t

unfoldable pub int32_bytes : ℤ → Text
int32_bytes v = le_bytes 4 (pattern_of (2 ^ 32) v)

unfoldable pub int64_bytes : ℤ → Text
int64_bytes v = le_bytes 8 (pattern_of (2 ^ 64) v)

unfoldable pub field_int32 : ℕ → Text → ℤ
field_int32 offset bytes_in = wrap32 (pos (of_le (take 4 (drop offset bytes_in))))

unfoldable pub field_int64 : ℕ → Text → ℤ
field_int64 offset bytes_in = wrap64 (pos (of_le (take 8 (drop offset bytes_in))))

unfoldable pub field_byte : ℕ → Text → ℕ
field_byte offset bytes_in = get_or bytes_in offset 0

unfoldable pub field_bool : ℕ → Text → Bool
field_bool offset bytes_in = not (field_byte offset bytes_in == 0)

abbrev pub bool_byte : Bool → ℕ
bool_byte true = 1
bool_byte false = 0

-- `KdecWireDeviceId`
unfoldable pub wire_device_id : Text → Text
wire_device_id device_id = strncpy kdec_device_id_max device_id

-- `KdecWireRunCommand`
unfoldable pub wire_run_command : Text → Text → Text
wire_run_command device_id command_id =
    strncpy kdec_device_id_max device_id ++ strncpy kdec_command_id_max command_id

-- `KdecWireWriteBoolSetting`
unfoldable pub wire_write_bool : ℕ → Bool → Text
wire_write_bool key value = key ∷ (bool_byte value ∷ [])

-- `KdecWireWriteIntSetting`, with three bytes between the key and the value.
unfoldable pub wire_write_int : ℕ → ℤ → Text
wire_write_int key value = key ∷ (pad_to 3 [] ++ int32_bytes value)

-- `KdecWireSendMediaAction`, with seven bytes between the action and the value.
unfoldable pub wire_send_media_action : Text → ℕ → ℤ → Text
wire_send_media_action device_id action value =
    strncpy kdec_device_id_max device_id ++ (action ∷ (pad_to 7 [] ++ int64_bytes value))

-- `KdecWireSetVolumeSink`, with ten bytes behind.
unfoldable pub wire_set_volume_sink : Text → Text → ℤ → Bool → Bool → Text
wire_set_volume_sink device_id sink_name volume muted is_default_output =
    strncpy kdec_device_id_max device_id
    ++ (strncpy kdec_sink_name_max sink_name
        ++ (int32_bytes volume ++ (bool_byte muted ∷ (bool_byte is_default_output ∷ pad_to 10 []))))
