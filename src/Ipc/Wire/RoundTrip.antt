-- ===== src/Ipc/Wire/RoundTrip.antt =====
-- What the service reads of what the caller has written.
use kdeconnect_nx.Prelude.{
  ℕ, ◌-◌, Text, c_str, Bool, [], ◌∷◌, ◌++◌, ◌≡◌, refl, subst, arith, take, length, length-append,
  append_assoc,
}
use kdeconnect_nx.Prelude.Int.{ℤ, IsInt32, IsInt64}
use kdeconnect_nx.Ipc.Wire.{
  kdec_device_id_max, kdec_sink_name_max, kdec_command_id_max, pad_to, strncpy, field_text,
  int32_bytes, int64_bytes, field_int32, field_int64, field_byte, field_bool, bool_byte,
  wire_device_id, wire_run_command, wire_write_bool, wire_write_int, wire_send_media_action,
  wire_set_volume_sink,
}
use kdeconnect_nx.Ipc.Wire.Fields.{
  length-pad_to, length-strncpy, field_text-strncpy, field_int32-int32_bytes,
  field_int64-int64_bytes, field_byte-append, field_bool-append, length-int32_bytes,
  length-int64_bytes,
}

-- What is left of a text in an array of `n` bytes.
abbrev pub cut : ℕ → Text → Text
cut n s = take (n - 1) (c_str s)

pub wire_device_id_lem :
    (device_id rest : Text)
    → field_text 0 kdec_device_id_max (wire_device_id device_id ++ rest)
      ≡ cut kdec_device_id_max device_id
unfolding wire_device_id
wire_device_id_lem device_id rest = field_text-strncpy [] rest device_id 0 64 refl (omega arith)

pub wire_run_command_lem :
    (device_id command_id rest : Text)
    → let sent = wire_run_command device_id command_id ++ rest in
      (field_text 0 kdec_device_id_max sent ≡ cut kdec_device_id_max device_id)
      × (field_text 64 kdec_command_id_max sent ≡ cut kdec_command_id_max command_id)
unfolding wire_run_command
wire_run_command_lem device_id command_id rest =
    let a = strncpy 64 device_id in
    let b = strncpy 64 command_id in
    rw (append_assoc a b rest) (
      field_text-strncpy [] (b ++ rest) device_id 0 64 refl (omega arith),
      field_text-strncpy a rest command_id 64 64 (length-strncpy 64 device_id) (omega arith),
    )

pub wire_write_bool_lem :
    (key : ℕ) (value : Bool) (rest : Text)
    → let sent = wire_write_bool key value ++ rest in
      (field_byte 0 sent ≡ key) × (field_bool 1 sent ≡ value)
unfolding wire_write_bool
wire_write_bool_lem key value rest =
    (field_byte-append [] _ 0 key refl, field_bool-append (key ∷ []) rest 1 value refl)

pub wire_write_int_lem :
    (key : ℕ) (value : ℤ) (rest : Text)
    → IsInt32 value
    → let sent = wire_write_int key value ++ rest in
      (field_byte 0 sent ≡ key) × (field_int32 4 sent ≡ value)
unfolding wire_write_int pad_to
wire_write_int_lem key value rest fits = (
  field_byte-append [] _ 0 key refl,
  field_int32-int32_bytes (key ∷ (0 ∷ (0 ∷ (0 ∷ [])))) rest 4 value refl fits,
)

pub wire_send_media_action_lem :
    (device_id : Text) (action : ℕ) (value : ℤ) (rest : Text)
    → IsInt64 value
    → let sent = wire_send_media_action device_id action value ++ rest in
      (field_text 0 kdec_device_id_max sent ≡ cut kdec_device_id_max device_id)
      × (field_byte 64 sent ≡ action)
      × (field_int64 72 sent ≡ value)
unfolding wire_send_media_action
wire_send_media_action_lem device_id action value rest fits =
    let a = strncpy 64 device_id in
    let at : length a ≡ 64 = length-strncpy 64 device_id in
    let gap = action ∷ pad_to 7 [] in
    let at72 : length (a ++ gap) ≡ 72 =
      omega (arith, length-append a gap, at, length-pad_to 7 []) in
    (
      rw (append_assoc a (action ∷ (pad_to 7 [] ++ int64_bytes value)) rest)
          (field_text-strncpy [] _ device_id 0 64 refl (omega arith)),
      rw (append_assoc a (action ∷ (pad_to 7 [] ++ int64_bytes value)) rest)
          (field_byte-append a _ 64 action at),
      subst (λ t. field_int64 72 t ≡ value) (simp append_assoc)
          (field_int64-int64_bytes (a ++ gap) rest 72 value at72 fits),
    )

pub wire_set_volume_sink_lem :
    (device_id sink_name : Text) (volume : ℤ) (muted is_default_output : Bool) (rest : Text)
    → IsInt32 volume
    → let sent = wire_set_volume_sink device_id sink_name volume muted is_default_output ++ rest in
      (field_text 0 kdec_device_id_max sent ≡ cut kdec_device_id_max device_id)
      × (field_text 64 kdec_sink_name_max sent ≡ cut kdec_sink_name_max sink_name)
      × (field_int32 128 sent ≡ volume)
      × (field_bool 132 sent ≡ muted)
      × (field_bool 133 sent ≡ is_default_output)
unfolding wire_set_volume_sink
wire_set_volume_sink_lem device_id sink_name volume muted is_default_output rest fits =
    let a = strncpy 64 device_id in
    let b = strncpy 64 sink_name in
    let v = int32_bytes volume in
    let m = bool_byte muted ∷ [] in
    let at64 : length a ≡ 64 = length-strncpy 64 device_id in
    let at128 : length (a ++ b) ≡ 128 =
      omega (arith, length-append a b, at64, length-strncpy 64 sink_name) in
    let at132 : length ((a ++ b) ++ v) ≡ 132 =
      omega (arith, length-append (a ++ b) v, at128, length-int32_bytes volume) in
    let at133 : length (((a ++ b) ++ v) ++ m) ≡ 133 =
      omega (arith, length-append ((a ++ b) ++ v) m, at132) in
    let p = pad_to 10 [] ++ rest in
    let d = bool_byte is_default_output ∷ p in
    (
      subst (λ t. field_text 0 64 t ≡ cut 64 device_id) (simp append_assoc)
          (field_text-strncpy [] (b ++ (v ++ (bool_byte muted ∷ d))) device_id 0 64 refl
            (omega arith)),
      subst (λ t. field_text 64 64 t ≡ cut 64 sink_name) (simp append_assoc)
          (field_text-strncpy a (v ++ (bool_byte muted ∷ d)) sink_name 64 64 at64 (omega arith)),
      subst (λ t. field_int32 128 t ≡ volume) (simp append_assoc)
          (field_int32-int32_bytes (a ++ b) (bool_byte muted ∷ d) 128 volume at128 fits),
      subst (λ t. field_bool 132 t ≡ muted) (simp append_assoc)
          (field_bool-append ((a ++ b) ++ v) d 132 muted at132),
      subst (λ t. field_bool 133 t ≡ is_default_output) (simp append_assoc)
          (field_bool-append (((a ++ b) ++ v) ++ m) p 133 is_default_output at133),
    )

pub length-wire_set_volume_sink :
    (device_id sink_name : Text) (volume : ℤ) (muted is_default_output : Bool)
    → length (wire_set_volume_sink device_id sink_name volume muted is_default_output) ≡ 144
unfolding wire_set_volume_sink
length-wire_set_volume_sink device_id sink_name volume muted is_default_output =
    let a = strncpy 64 device_id in
    let b = strncpy 64 sink_name in
    let v = int32_bytes volume in
    let t = bool_byte muted ∷ (bool_byte is_default_output ∷ pad_to 10 []) in
    omega (
      arith,
      length-append a (b ++ (v ++ t)),
      length-append b (v ++ t),
      length-append v t,
      length-strncpy 64 device_id,
      length-strncpy 64 sink_name,
      length-int32_bytes volume,
      length-pad_to 10 [],
    )

pub length-wire_run_command :
    (device_id command_id : Text) → length (wire_run_command device_id command_id) ≡ 128
unfolding wire_run_command
length-wire_run_command device_id command_id = omega (
  arith,
  length-append (strncpy 64 device_id) (strncpy 64 command_id),
  length-strncpy 64 device_id,
  length-strncpy 64 command_id,
)

pub length-wire_send_media_action :
    (device_id : Text) (action : ℕ) (value : ℤ)
    → length (wire_send_media_action device_id action value) ≡ 80
unfolding wire_send_media_action
length-wire_send_media_action device_id action value =
    let t = action ∷ (pad_to 7 [] ++ int64_bytes value) in
    omega (
      arith,
      length-append (strncpy 64 device_id) t,
      length-append (pad_to 7 []) (int64_bytes value),
      length-strncpy 64 device_id,
      length-pad_to 7 [],
      length-int64_bytes value,
    )
