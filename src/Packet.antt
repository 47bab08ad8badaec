-- ===== src/Packet.antt =====
-- sysmodule/src/net/network_packet.{h,cpp}: the packet, its line on the wire, and the line's reader.
pub mod RoundTrip
pub mod Channel
use kdeconnect_nx.Prelude.{
  Text, Bool, true, false, not, ◌&&◌, ◌||◌, Option, none, some, List, [], ◌∷◌, ◌++◌, if◌then◌else◌,
  bytes, ℕ,
}
use kdeconnect_nx.Prelude.Int.{ℤ, pos, negsuc, leb_ℤ, ltb_ℤ}
use kdeconnect_nx.Json.Yyjson.{Yyjson}
use kdeconnect_nx.Json.Body
use kdeconnect_nx.Json.Body.{JsonBody}
use kdeconnect_nx.Json.Setters.{set_i64, set_int, set_str, set_obj, dump}

pub record NetworkPacket (y : Yyjson) : Type 0 where
  pub type : Text
  pub body : JsonBody y
  pub payload_size : ℤ
  pub payload_port : ℤ
  pub send_payload : List ℕ

module _ (y : Yyjson) where
  -- `NetworkPacket pkt;`, with its type and body given.
  abbrev pub packet : Text → JsonBody y → NetworkPacket y
  packet type body = record {
    type = type;
    body = body;
    payload_size = negsuc 0;
    payload_port = negsuc 0;
    send_payload = [];
  }

  unfoldable pub has_payload : NetworkPacket y → Bool
  has_payload p = ltb_ℤ (pos 0) p.payload_port && ltb_ℤ (pos 0) p.payload_size

  -- The object that `serialize` builds; `now` is the system clock in milliseconds.
  unfoldable pub envelope : ℤ → NetworkPacket y → JsonBody y
  envelope now p =
      let root =
        set_obj y (bytes "body") p.body
          (set_str y (bytes "type") p.type (set_i64 y (bytes "id") now (Body.empty y))) in
      let ti = set_int y (bytes "port") p.payload_port (Body.empty y) in
      if leb_ℤ (pos 0) p.payload_port && ltb_ℤ (pos 0) p.payload_size
      then set_obj y (bytes "payloadTransferInfo") ti
          (set_i64 y (bytes "payloadSize") p.payload_size root)
      else root

  unfoldable pub serialize : ℤ → NetworkPacket y → Text
  unfolding envelope
  serialize now p = dump y false (envelope now p) ++ b'\n' ∷ []

  payload_port_of : JsonBody y → ℤ
  payload_port_of root =
      if Body.is_obj y root (bytes "payloadTransferInfo")
      then Body.value_int y (Body.get_obj y root (bytes "payloadTransferInfo")) (bytes "port")
          (negsuc 0)
      else negsuc 0

  -- What `parse` makes of the object that it read.
  unfoldable pub of_root : JsonBody y → Option (NetworkPacket y)
  unfolding payload_port_of
  of_root root =
      if not (Body.has y root (bytes "type")) || not (Body.has y root (bytes "body"))
      then none
      else some (record {
        type = Body.get_str y root (bytes "type");
        body = Body.get_obj y root (bytes "body");
        payload_size =
            if Body.is_num y root (bytes "payloadSize")
            then Body.get_i64 y root (bytes "payloadSize")
            else negsuc 0;
        payload_port =
            if Body.is_num y root (bytes "payloadSize") then payload_port_of root else negsuc 0;
        send_payload = [];
      })

  unfoldable pub parse : Text → Option (NetworkPacket y)
  unfolding of_root
  parse line = of_root (Body.parse y line)
