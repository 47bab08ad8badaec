-- ===== src/Client/Pairing/Stored.antt =====
-- What the disk knows of a device after it was paired or unpaired.
use kdeconnect_nx.Prelude.{ℕ, Text, true, ◌≡◌, Bool, ◌&&◌, ◌||◌, ◌==◌, leb, All}
use kdeconnect_nx.Json.Yyjson.{Yyjson}
use kdeconnect_nx.Json.Body
use kdeconnect_nx.Client.State.{Client}

abbrev pub is_id_char : ℕ → Bool
is_id_char c = (leb b'a' c && leb c b'z') || (leb b'0' c && leb c b'9') || c == b'_' || c == b'-'

-- An id of letters, digits and dashes. Letters are small, since the card's paths ignore case.
abbrev pub IsDeviceId : Text → Type 0
IsDeviceId = All (λ c. is_id_char c ≡ true)
