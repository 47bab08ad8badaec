-- ===== src/Examples/Streams.antt =====
-- The loops over a connection, and the loop of a session, at concrete inputs.
use kdeconnect_nx.Prelude.{
  Text, bytes, true, false, some, List, [], ◌∷◌, ◌≡◌, refl, map, arith, ◌==◌, eq_text, erase, c_str,
}
use kdeconnect_nx.Prelude.Int.{pos}
use kdeconnect_nx.Json.Body
use kdeconnect_nx.Json.Body.{JsonBody, field, upsert}
use kdeconnect_nx.Json.Setters.{set_i64, set_int, set_str, set_obj, dump}
use kdeconnect_nx.Examples.Tree.{encode, encode_text}
use kdeconnect_nx.Examples.TreeJson.{tree_json}
use kdeconnect_nx.Examples.Devices.{greeter, digest, client, noon}
use kdeconnect_nx.Packet.{NetworkPacket, packet, envelope, serialize, parse}
use kdeconnect_nx.Packet.RoundTrip.{received}
use kdeconnect_nx.Packet.Channel.{read_lines, IsSendable, wire, parse-read_lines}
use kdeconnect_nx.Stream.{Read, byte, read_line_tls}
use kdeconnect_nx.Stream.Reading.{answered, settled, read_line_tls-answered}
use kdeconnect_nx.Client.State.{paired, Client, update}
use kdeconnect_nx.Client.Queues.{Appends-same}
use kdeconnect_nx.Client.Session.{idle, Turn, io_loop, set_queue}
use kdeconnect_nx.Client.Session.Order.{Keeps, appended, io_loop-order}
use kdeconnect_nx.Client.Session.Ending.{NoneAfterFailure, io_loop-NoneAfterFailure}

-- The line "a", with a timeout before each byte.
abbrev slow : List Read
slow = Read.retry ∷ byte b'a' ∷ Read.retry ∷ byte b'\n' ∷ []

read_line_tls-answered_example :
    settled (read_line_tls 4 slow) ≡ read_line_tls 4 (byte b'a' ∷ byte b'\n' ∷ [])
read_line_tls-answered_example = read_line_tls-answered 4 slow

abbrev ping : NetworkPacket tree_json
ping = packet tree_json (b'p' ∷ []) (Body.empty tree_json)

abbrev ping_text : Text
ping_text = dump tree_json false (envelope tree_json (pos 0) ping)

abbrev pinged : List Read
pinged = Read.retry ∷ map byte (wire tree_json (pos 0) (ping ∷ []))

ping-IsSendable : IsSendable tree_json 100000 (pos 0) ping
unfolding envelope set_i64 set_int set_str set_obj upsert dump erase c_str encode encode_text bytes
    eq_text
ping-IsSendable = record {
  body_object = refl;
  type_plain = (omega arith, tt);
  size_fits = omega arith;
  port_fits = omega arith;
  text = ping_text;
  written = refl;
  short = omega arith;
}

ping_arrives : answered pinged ≡ map byte (wire tree_json (pos 0) (ping ∷ []))
unfolding envelope serialize set_i64 set_int set_str set_obj upsert dump erase c_str encode
    encode_text bytes eq_text
ping_arrives = refl

parse-read_lines_example :
    map (parse tree_json) (read_lines 3 100000 pinged) ≡ some (received tree_json ping) ∷ []
parse-read_lines_example =
    parse-read_lines tree_json 100000 3 (pos 0) (ping ∷ []) pinged (ping-IsSendable, tt)
      (omega arith) ping_arrives

-- A session with two lines that wait, of which the second cannot be sent.
abbrev busy : Client Text
busy = update 0 (set_queue (bytes "one" ∷ bytes "two" ∷ [])) (client paired)

abbrev turn : Turn Text
turn = record { now = noon; elsewhere = λ c. c; running = true; sends = λ n. n == 0; select = idle }

io_loop-order_example :
    Keeps 0 busy
      (io_loop tree_json greeter digest (bytes "/kdc") 0 (turn ∷ turn ∷ []) busy).0
      (io_loop tree_json greeter digest (bytes "/kdc") 0 (turn ∷ turn ∷ []) busy).1
      (appended tree_json greeter digest (bytes "/kdc") 0 (turn ∷ turn ∷ []) busy)
io_loop-order_example =
    io_loop-order tree_json greeter digest (bytes "/kdc") 0 (turn ∷ turn ∷ []) busy
      (λ c. Appends-same 0 c c refl, (λ c. Appends-same 0 c c refl, tt))

io_loop-NoneAfterFailure_example :
    NoneAfterFailure (io_loop tree_json greeter digest (bytes "/kdc") 0 (turn ∷ turn ∷ []) busy).1
io_loop-NoneAfterFailure_example =
    io_loop-NoneAfterFailure tree_json greeter digest (bytes "/kdc") 0 (turn ∷ turn ∷ []) busy
