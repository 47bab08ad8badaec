-- ===== src/Plugins/Mousepad.antt =====
-- plugins/mousepad_plugin.cpp on the console: the keys that a packet of the other device presses. What
-- the debug service for input devices is told is kept in order, one press after the other.
pub mod Keys
pub mod Typing
use kdeconnect_nx.Prelude.{
  ℕ, zero, suc, ◌+◌, ◌-◌, ◌*◌, ◌/◌, ◌%◌, Text, bytes, Bool, true, false, not, ◌&&◌, ◌||◌, List, [],
  ◌∷◌, ◌++◌, if◌then◌else◌, eq_text, is_empty, ◌==◌, leb, ltb, get_or,
}
use kdeconnect_nx.Prelude.Int.{ℤ, pos, negsuc, ltb_ℤ, eq_ℤ, pos_part}
use kdeconnect_nx.Json.Yyjson.{Yyjson}
use kdeconnect_nx.Json.Body
use kdeconnect_nx.Json.Body.{JsonBody}
use kdeconnect_nx.Json.Setters.{set_bool, copy_field}
use kdeconnect_nx.Packet.{NetworkPacket, packet}

pub record HidKeyInfo : Type 0 where
  pub hid_code : ℕ
  pub needs_shift : Bool

-- The cases of the switch, in its order.
abbrev pub switch_table : List (ℕ × (ℕ × Bool))
switch_table =
    (b'0', (0x27, false))
    ∷ (b'\n', (0x28, false))
    ∷ (b'\r', (0x28, false))
    ∷ (b'\t', (0x2B, false))
    ∷ (b' ', (0x2C, false))
    ∷ (b'-', (0x2D, false))
    ∷ (b'_', (0x2D, true))
    ∷ (b'=', (0x2E, false))
    ∷ (b'+', (0x2E, true))
    ∷ (b'[', (0x2F, false))
    ∷ (b'{', (0x2F, true))
    ∷ (b']', (0x30, false))
    ∷ (b'}', (0x30, true))
    ∷ (b'\\', (0x31, false))
    ∷ (b'|', (0x31, true))
    ∷ (b';', (0x33, false))
    ∷ (b':', (0x33, true))
    ∷ (b'\'', (0x34, false))
    ∷ (b'"', (0x34, true))
    ∷ (b'`', (0x35, false))
    ∷ (b'~', (0x35, true))
    ∷ (b',', (0x36, false))
    ∷ (b'<', (0x36, true))
    ∷ (b'.', (0x37, false))
    ∷ (b'>', (0x37, true))
    ∷ (b'/', (0x38, false))
    ∷ (b'?', (0x38, true))
    ∷ (b'!', (0x1E, true))
    ∷ (b'@', (0x1F, true))
    ∷ (b'#', (0x20, true))
    ∷ (b'$', (0x21, true))
    ∷ (b'%', (0x22, true))
    ∷ (b'^', (0x23, true))
    ∷ (b'&', (0x24, true))
    ∷ (b'*', (0x25, true))
    ∷ (b'(', (0x26, true))
    ∷ (b')', (0x27, true))
    ∷ []

unfoldable pub switch : List (ℕ × (ℕ × Bool)) → ℕ → HidKeyInfo
switch [] c = record { hid_code = 0; needs_shift = false }
switch ((d, (code, shifted)) ∷ cases) c =
    if c == d then record { hid_code = code; needs_shift = shifted } else switch cases c

unfoldable pub char_to_hid : ℕ → HidKeyInfo
unfolding switch
char_to_hid c =
    if leb b'a' c && leb c b'z'
    then record { hid_code = 0x04 + (c - b'a'); needs_shift = false }
    else if leb b'A' c && leb c b'Z'
    then record { hid_code = 0x04 + (c - b'A'); needs_shift = true }
    else if leb b'1' c && leb c b'9'
    then record { hid_code = 0x1E + (c - b'1'); needs_shift = false }
    else switch switch_table c

-- `kSpecialKeyMap`
abbrev pub special_key_map : List ℕ
special_key_map =
    0x00 ∷ 0x2A ∷ 0x2B ∷ 0x00 ∷ 0x50 ∷ 0x52 ∷ 0x4F ∷ 0x51 ∷ 0x4B ∷ 0x4E ∷ 0x4A ∷ 0x4D ∷ 0x28 ∷ 0x4C
    ∷ 0x29 ∷ 0x46 ∷ 0x47 ∷ 0x00 ∷ 0x00 ∷ 0x00 ∷ 0x00 ∷ 0x3A ∷ 0x3B ∷ 0x3C ∷ 0x3D ∷ 0x3E ∷ 0x3F
    ∷ 0x40 ∷ 0x41 ∷ 0x42 ∷ 0x43 ∷ 0x44 ∷ 0x45 ∷ []

-- The arguments of `do_inject_hid`.
pub record Press : Type 0 where
  pub hid_code : ℕ
  pub shift : Bool
  pub ctrl : Bool
  pub alt : Bool
  pub gui : Bool
  pub altgr : Bool

-- `word | (1 << b)`
unfoldable pub set_bit : ℕ → ℕ → ℕ
set_bit zero word = 2 * (word / 2) + 1
set_bit (suc b) word = 2 * set_bit b (word / 2) + word % 2

-- `state.keys[usage >> 6] |= 1ULL << (usage & 63)`, with the words of the state by their index.
unfoldable pub set_key : ℕ → (ℕ → ℕ) → ℕ → ℕ
set_key usage keys i = if i == usage / 64 then set_bit (usage % 64) (keys i) else keys i

unfoldable pub set_key_if : Bool → ℕ → (ℕ → ℕ) → ℕ → ℕ
set_key_if b usage keys = if b then set_key usage keys else keys

-- The state that `do_inject_hid` holds for 25 ms.
unfoldable pub pressed_keys : Press → ℕ → ℕ
pressed_keys p = set_key_if p.altgr 0xE5 (
    set_key_if p.gui 0xE3 (
      set_key_if p.alt 0xE2
        (set_key_if p.shift 0xE1 (set_key_if p.ctrl 0xE0 (set_key p.hid_code (λ i. 0))))))

-- The hint that a mouse is not supported is shown once for the whole program.
pub record MousepadState : Type 0 where
  pub no_mouse_support_hint_shown : Bool
  pub hints : ℕ
  pub presses : List Press

module _ (y : Yyjson) where
  -- `do_key`: the modifiers of the packet apply to every key.
  unfoldable pub do_key : JsonBody y → ℕ → Bool → Press
  do_key body hid_code needs_shift = record {
    hid_code = hid_code;
    shift = Body.value_bool y body (bytes "shift") false || needs_shift;
    ctrl = Body.value_bool y body (bytes "ctrl") false;
    alt = Body.value_bool y body (bytes "alt") false;
    gui = Body.value_bool y body (bytes "super") false;
    altgr = false;
  }

  unfoldable pub inject_special : JsonBody y → ℤ → List Press
  inject_special body special =
      let hid_code = get_or special_key_map (pos_part special) 0 in
      if ltb_ℤ (pos 0) special && ltb_ℤ special (pos 33)
      then if not (hid_code == 0) then do_key body hid_code false ∷ [] else []
      else []

  unfoldable pub inject_chars : JsonBody y → Text → List Press
  inject_chars body [] = []
  inject_chars body (c ∷ cs) =
      let rest = inject_chars body cs in
      let info = char_to_hid c in
      if leb 0x80 c
      then rest
      else if not (info.hid_code == 0)
      then do_key body info.hid_code info.needs_shift ∷ rest
      else rest

  -- The presses of one packet, where the debug service is available.
  unfoldable pub inject_key : Bool → JsonBody y → List Press
  inject_key available body =
      let special = Body.get_int y body (bytes "specialKey") in
      let key = Body.get_str y body (bytes "key") in
      if not available
      then []
      else if Body.is_num y body (bytes "specialKey") && not (eq_ℤ special (pos 0))
      then inject_special body special
      else if Body.is_str y body (bytes "key") && not (is_empty key)
      then inject_chars body key
      else []

  copy_fields : List Text → JsonBody y → JsonBody y → JsonBody y
  copy_fields [] src b = b
  copy_fields (f ∷ fs) src b = copy_fields fs src (copy_field y f src b)

  unfoldable pub send_echo : JsonBody y → NetworkPacket y
  unfolding copy_fields
  send_echo body = packet y (bytes "kdeconnect.mousepad.echo") (
      set_bool y (bytes "isAck") true (
        copy_fields
          (bytes "key"
            ∷ bytes "specialKey"
            ∷ bytes "alt"
            ∷ bytes "ctrl"
            ∷ bytes "shift"
            ∷ bytes "super"
            ∷ bytes "singleclick"
            ∷ bytes "doubleclick"
            ∷ bytes "middleclick"
            ∷ bytes "rightclick"
            ∷ bytes "singlehold"
            ∷ bytes "singlerelease"
            ∷ bytes "dx"
            ∷ bytes "dy"
            ∷ bytes "scroll"
            ∷ [])
          body (Body.empty y)))

  unfoldable pub on_connected : Bool → List (NetworkPacket y)
  on_connected paired =
      if paired
      then packet y (bytes "kdeconnect.mousepad.keyboardstate")
          (set_bool y (bytes "state") true (Body.empty y))
        ∷ []
      else []

  unfoldable pub show_hint : JsonBody y → MousepadState → MousepadState
  show_hint body m =
      if (Body.has y body (bytes "dx") || Body.has y body (bytes "dy"))
        && not m.no_mouse_support_hint_shown
      then record m { no_mouse_support_hint_shown = true; hints = suc m.hints }
      else m

  unfoldable pub on_packet_received :
      Bool → NetworkPacket y → MousepadState → MousepadState × Bool × List (NetworkPacket y)
  on_packet_received available np m =
      let m1 = show_hint np.body m in
      if not (eq_text np.type (bytes "kdeconnect.mousepad.request")) then (m, false, []) else (
        record m1 { presses = m1.presses ++ inject_key available np.body },
        true,
        if Body.value_bool y np.body (bytes "sendAck") false then send_echo np.body ∷ [] else [],
      )
