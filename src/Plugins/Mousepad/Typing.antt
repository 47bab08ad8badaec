-- ===== src/Plugins/Mousepad/Typing.antt =====
-- The text that a packet types.
use kdeconnect_nx.Prelude.{
  ℕ, zero, suc, ◌-◌, ◌≤◌, Text, bytes, Bool, true, not, ◌&&◌, ◌==◌, get_or, if◌then◌else◌,
}
use kdeconnect_nx.Json.Yyjson.{Yyjson}
use kdeconnect_nx.Json.Body
use kdeconnect_nx.Plugins.Mousepad.{char_to_hid}

-- A keyboard with the US layout, from the key 0x04 on: what a key types alone, and with Shift. The
-- keys 0x28 to 0x2B and 0x32 type nothing that is printed.
abbrev pub plain_row : Text
plain_row = bytes "abcdefghijklmnopqrstuvwxyz1234567890\0\0\0\0 -=[]\\\0;'`,./"

abbrev pub shift_row : Text
shift_row = bytes "ABCDEFGHIJKLMNOPQRSTUVWXYZ!@#$%^&*()\0\0\0\0 _+{}|\0:\"~<>?"

abbrev pub typed_by : ℕ → Bool → ℕ
typed_by hid_code shifted =
    if shifted then get_or shift_row (hid_code - 4) 0 else get_or plain_row (hid_code - 4) 0

-- A printable character of ASCII.
abbrev pub IsPrintable : ℕ → Type 0
IsPrintable c = (32 ≤ c) × (c ≤ 126)

abbrev types_itself : ℕ → Bool
types_itself c =
    typed_by (char_to_hid c).hid_code (char_to_hid c).needs_shift == c
    && not ((char_to_hid c).hid_code == 0)

-- The characters from `c` on, `n` of them, all type themselves.
abbrev all_type : ℕ → ℕ → Bool
all_type zero c = true
all_type (suc n) c = types_itself c && all_type n (suc c)
