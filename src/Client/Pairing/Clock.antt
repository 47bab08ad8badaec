-- ===== src/Client/Pairing/Clock.antt =====
-- The timestamps that the handlers send, and what the peer makes of them.
use kdeconnect_nx.Prelude.{
  ℕ, ◌+◌, ◌*◌, ◌≤◌, ◌<◌, ◌^◌, Text, bytes, true, false, some, [], ◌∷◌, ◌++◌, ◌≡◌, arith, ◌∙◌,
  eq_text, eq_text_refl, is_empty, List, ap, append_assoc,
}
use kdeconnect_nx.Prelude.Int.{ℤ, pos, IsInt64, wrap64, llabs, ◌-ℤ◌}
use kdeconnect_nx.Json.Yyjson.{Yyjson}
use kdeconnect_nx.Json.Body
use kdeconnect_nx.Json.Body.{JsonBody, field}
use kdeconnect_nx.Json.Setters.{set_bool, set_i64}
use kdeconnect_nx.Json.Fields.{empty-IsObject, upsert-IsObject}
use kdeconnect_nx.Json.Written.{Writes}
use kdeconnect_nx.Packet.{NetworkPacket, packet, envelope, serialize, parse}
use kdeconnect_nx.Packet.RoundTrip.{parse-serialize}
use kdeconnect_nx.Client.Send.{send_packet, send_to, push_line}
use kdeconnect_nx.Client.Dispatch.{handle_parsed, handle_packet}
use kdeconnect_nx.Client.Queues.{Appends-complete_pairing}
use kdeconnect_nx.Json.Upserts.{lookup_last, field-upserts, value_bool-mut_bool, value_i64-mut_sint}
use kdeconnect_nx.Client.State.{
  requested_by_peer, is_requested, PluginHost, Client, Now, device, notify, update,
}
use kdeconnect_nx.Client.Key.{verification_key, verification_key_comm}
use kdeconnect_nx.Client.Pairing.{
  is_skewed, handle_pair_packet, peer_wants_pair, pair_packet, pair_type, accept_pair,
  accept_session, accept_sent,
}

is_skewed-milliseconds :
    (there here part : ℕ)
    → 4 ≤ there
    → there < 2 ^ 50
    → part < 1000
    → here ≤ there + 1800
    → is_skewed (pos here) (pos (1000 * there + part)) ≡ true
unfolding is_skewed ◌-ℤ◌ wrap64 llabs
is_skewed-milliseconds there here part late bound small near = ground arith

module _ (y : Yyjson) (host : PluginHost y) (sha256_hex_upper : Text → Text) (base : Text) where
  open host use {Plugin}

  -- A pair packet of this program says `pair`, and carries the timestamp that it was made with.
  handle-pair_packet :
      (now : Now) (h : ℕ) (ts : ℤ) (c : Client Plugin)
      → IsInt64 ts
      → handle_pair_packet y host sha256_hex_upper base now h
          (pair_packet y host sha256_hex_upper base ts).body
          c
        ≡ peer_wants_pair y host sha256_hex_upper base now h ts c
  unfolding handle_pair_packet pair_packet set_bool set_i64 eq_text bytes lookup_last
  handle-pair_packet now h ts c fits =
      let m = (bytes "pair", y.mut_bool true) ∷ (bytes "timestamp", y.mut_sint ts) ∷ [] in
      let b = (pair_packet y host sha256_hex_upper base ts).body in
      let obj = empty-IsObject y in
      let pair_is : field y b (bytes "pair") ≡ some (y.mut_bool true) =
        field-upserts y m (Body.empty y) (bytes "pair") obj in
      let time_is : field y b (bytes "timestamp") ≡ some (y.mut_sint ts) =
        field-upserts y m (Body.empty y) (bytes "timestamp") obj in
      rw (
        value_bool-mut_bool y b (bytes "pair") true false pair_is,
        value_i64-mut_sint y b (bytes "timestamp") ts (pos 0) fits time_is,
      )

  accept_packet-refused :
      (there here : ℕ) (part h : ℕ) (milliseconds : ℤ) (c : Client Plugin)
      → 4 ≤ there
      → there < 2 ^ 50
      → part < 1000
      → here ≤ there + 1800
      → handle_pair_packet y host sha256_hex_upper base
          (record { seconds = pos here; milliseconds = milliseconds })
          h
          (pair_packet y host sha256_hex_upper base (pos (1000 * there + part))).body
          c
        ≡ notify
            (c.heap h).info.name
            (bytes "Pair request rejected due to clock skew. Check the system time.")
            ((c.heap h).info.id ++ bytes "_error")
            c
  unfolding peer_wants_pair
  accept_packet-refused there here part h milliseconds c late bound small near =
      handle-pair_packet (record { seconds = pos here; milliseconds = milliseconds }) h _ c
        (omega arith)
      ∙ rw (is_skewed-milliseconds there here part late bound small near)

  pair_packet-arrives :
      (now ts : ℤ) (text : Text)
      → Writes y false (envelope y now (pair_packet y host sha256_hex_upper base ts)) text
      → parse y (serialize y now (pair_packet y host sha256_hex_upper base ts))
        ≡ some (packet y pair_type (pair_packet y host sha256_hex_upper base ts).body)
  unfolding pair_packet pair_type bytes set_bool set_i64
  pair_packet-arrives now ts text written =
      parse-serialize y now (pair_packet y host sha256_hex_upper base ts) text
        (upsert-IsObject y _ _ _ (upsert-IsObject y (Body.empty y) _ _ (empty-IsObject y)))
        (omega arith) (omega arith) (omega arith) written

  send_packet-connected :
      (now : Now) (id : Text) (h : ℕ) (p : NetworkPacket y) (c : Client Plugin)
      → device c id ≡ some h
      → (c.heap h).disconnected ≡ false
      → send_packet y host now id p c
        ≡ (update h (push_line y host (serialize y now.milliseconds p)) c, true)
  unfolding send_packet send_to
  send_packet-connected now id h p c mapped connected = rw mapped (ground (arith, connected))

  -- The acceptance of a pairing puts one line behind what waits, and then what the plugins send.
  accept_pair-sends :
      (now : Now) (id : Text) (h : ℕ) (c : Client Plugin)
      → device c id ≡ some h
      → (c.heap h).disconnected ≡ false
      → is_empty (c.heap h).cert_pem ≡ false
      → (more : List Text) × (((accept_pair y host sha256_hex_upper base now id c).heap
            h).send_queue
          ≡ (c.heap h).send_queue
            ++ serialize y now.milliseconds
                (pair_packet y host sha256_hex_upper base now.milliseconds)
              ∷ more)
  unfolding accept_pair accept_session accept_sent push_line
  accept_pair-sends now id h c mapped connected known =
      let line =
        serialize y now.milliseconds (pair_packet y host sha256_hex_upper base now.milliseconds) in
      let c1 = update h (push_line y host line) c in
      let (more, e) = Appends-complete_pairing y host sha256_hex_upper base h now h c1 in
      let queued : (c1.heap h).send_queue ≡ (c.heap h).send_queue ++ line ∷ [] = ground arith in
      rw (mapped, known, send_packet-connected now id h _ c mapped connected)
        (more, e ∙ ap (λ q. q ++ more) queued ∙ append_assoc (c.heap h).send_queue (line ∷ []) more)

  -- `accept_pair` stamps its packet in milliseconds where a request is stamped, and checked, in
  -- seconds. The user of a connected device, whose peer's certificate is known, accepts a pairing, and
  -- the library writes the packet: `accept_pair` puts a line in the session's queue that is refused as
  -- skewed when it arrives at another device which runs this program and whose clock is not more than
  -- half an hour ahead, from four seconds past the epoch to 2 ^ 50: that device, in whatever state
  -- its session is, posts an error and changes nothing else.
  pub accept_pair-refused :
      (there here part h k : ℕ) (milliseconds : ℤ) (id text : Text) (c other : Client Plugin)
      → device c id ≡ some h
      → (c.heap h).disconnected ≡ false
      → is_empty (c.heap h).cert_pem ≡ false
      → Writes y false
          (envelope y
            (pos (1000 * there + part))
            (pair_packet y host sha256_hex_upper base (pos (1000 * there + part))))
          text
      → 4 ≤ there
      → there < 2 ^ 50
      → part < 1000
      → here ≤ there + 1800
      → (line : Text) × (more : List Text) × (((accept_pair y host sha256_hex_upper base
              (record { seconds = pos there; milliseconds = pos (1000 * there + part) })
              id
              c).heap
            h).send_queue
          ≡ (c.heap h).send_queue ++ line ∷ more)
        × (handle_packet y host sha256_hex_upper base
              (record { seconds = pos here; milliseconds = milliseconds })
              k
              line
              other
            ≡ notify
                (other.heap k).info.name
                (bytes "Pair request rejected due to clock skew. Check the system time.")
                ((other.heap k).info.id ++ bytes "_error")
                other)
  unfolding handle_packet handle_parsed
  accept_pair-refused there here part h k milliseconds id text c other mapped connected known
        written late bound small near =
      let stamp = pos (1000 * there + part) in
      let sent : Now = record { seconds = pos there; milliseconds = stamp } in
      let (more, queued) = accept_pair-sends sent id h c mapped connected known in
      let arrives = pair_packet-arrives stamp stamp text written in
      (
        serialize y stamp (pair_packet y host sha256_hex_upper base stamp),
        more,
        queued,
        rw (arrives, eq_text_refl pair_type)
            (accept_packet-refused there here part k milliseconds other late bound small near),
      )

  -- A request that passes the clock, on a session that has not requested pairing itself, puts the
  -- question to the user. The key that is shown is the one that the requesting device computes of its
  -- own key, this device's key and the timestamp, which the session keeps.
  pub request_packet-shows_key :
      (now : Now) (h : ℕ) (ts : ℤ) (c : Client Plugin)
      → IsInt64 ts
      → is_skewed now.seconds ts ≡ false
      → is_requested (c.heap h).pair_state ≡ false
      → handle_pair_packet y host sha256_hex_upper base now h
          (pair_packet y host sha256_hex_upper base ts).body
          c
        ≡ notify
            (c.heap h).info.name
            (bytes "Incoming pair request. Open the overlay to accept. Key: "
              ++ verification_key sha256_hex_upper (c.heap h).peer_pubkey c.local_pubkey ts)
            ((c.heap h).info.id ++ bytes "_incoming")
            (update h (λ t. record t { pair_state = requested_by_peer; pairing_timestamp = ts }) c)
  unfolding peer_wants_pair
  request_packet-shows_key now h ts c fits passes idle =
      handle-pair_packet now h ts c fits
      ∙ rw (
        passes,
        idle,
        verification_key_comm sha256_hex_upper c.local_pubkey (c.heap h).peer_pubkey ts,
      )
