-- ===== src/Client/Upload.antt =====
-- `send_payload_reader` of net/kdeconnect_client.cpp. Which ports can be bound, whether `listen`
-- succeeds and what the sends answer are arguments; the reader hands out a file, so many bytes at each
-- call as the list says. The thread that serves the receiver is its loop: that the receiver connects and
-- the handshake is done is taken for granted here, since without them nothing is sent.
pub mod Transfer
use kdeconnect_nx.Prelude.{
  ℕ, zero, suc, ◌-◌, Text, Bool, true, false, not, ◌||◌, Option, none, some, List, [], ◌∷◌, ◌++◌,
  if◌then◌else◌, ◌==◌, length, take, drop, min, is_empty,
}
use kdeconnect_nx.Prelude.Int.{ℤ, pos}
use kdeconnect_nx.Json.Yyjson.{Yyjson}
use kdeconnect_nx.Packet.{NetworkPacket}
use kdeconnect_nx.Client.State.{PluginHost, Client, Now}
use kdeconnect_nx.Client.Send.{send_packet}

-- The loop over the ports, for so many from `p` on: the first that can be bound.
unfoldable pub free_port : (ℕ → Bool) → ℕ → ℕ → Option ℕ
free_port binds p zero = none
free_port binds p (suc n) = let rest = free_port binds (suc p) n in if binds p then some p else rest

-- The ports 1739 to 1764.
abbrev pub payload_port : (ℕ → Bool) → Option ℕ
payload_port binds = free_port binds 1739 26

-- The bytes that were sent by calls that succeeded, and how many are missing; or the loop waits.
pub data Uploaded : Type 0 where
  uploaded waiting : Text → ℕ → Uploaded

abbrev pub after : Text → Uploaded → Uploaded
after t (uploaded sent remaining) = uploaded (t ++ sent) remaining
after t (waiting sent remaining) = waiting (t ++ sent) remaining

-- The loop with 4096 bytes at most for each call of the reader.
unfoldable pub upload_loop : (Text → Bool) → List ℕ → Text → ℕ → Uploaded
upload_loop send_all [] file remaining =
    if remaining == 0 then uploaded [] 0 else waiting [] remaining
upload_loop send_all (n ∷ ns) file remaining =
    let piece = take (min n (min remaining 4096)) file in
    let rest = upload_loop send_all ns (drop (length piece) file) (remaining - length piece) in
    if remaining == 0
    then uploaded [] 0
    else if is_empty piece
    then uploaded [] remaining
    else if not (send_all piece)
    then uploaded [] remaining
    else after piece rest

module _ (y : Yyjson) (host : PluginHost y) where
  open host use {Plugin}

  -- The packet that announces the payload.
  abbrev pub announced : NetworkPacket y → ℕ → ℕ → NetworkPacket y
  announced p size port = record p { payload_size = pos size; payload_port = pos port }

  unfoldable pub announce :
      Now → Text → NetworkPacket y → ℕ → Option ℕ → Client Plugin → Client Plugin × Bool
  announce now id p size none c = (c, false)
  announce now id p size (some port) c = send_packet y host now id (announced p size port) c

  -- What it returns, and the client: the thread starts where this is true.
  unfoldable pub send_payload_reader :
      Now
      → Text
      → NetworkPacket y
      → ℕ
      → Bool
      → (ℕ → Bool)
      → Bool
      → Client Plugin
      → Client Plugin × Bool
  send_payload_reader now id p size has_socket binds listens c =
      if not has_socket || not listens
      then (c, false)
      else announce now id p size (payload_port binds) c
