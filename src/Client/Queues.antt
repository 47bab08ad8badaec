-- ===== src/Client/Queues.antt =====
-- A handler only appends to the send queues: what waits there keeps its place.
use kdeconnect_nx.Prelude.{
  ℕ, Text, bytes, Bool, true, false, Option, none, some, List, [], ◌∷◌, ◌++◌, ◌≡◌, refl, sym, ap,
  ◌∙◌, arith, ◌==◌, is_empty, eq_text, Bool-cases, inl, inr, append-nil, append_assoc,
}
use kdeconnect_nx.Prelude.Int.{ℤ, pos}
use kdeconnect_nx.Json.Yyjson.{Yyjson}
use kdeconnect_nx.Json.Body
use kdeconnect_nx.Json.Body.{JsonBody}
use kdeconnect_nx.Storage.{save_paired_device}
use kdeconnect_nx.Packet.{NetworkPacket, serialize, parse}
use kdeconnect_nx.Client.State.{
  paired, requested_by_peer, is_requested, PluginHost, DeviceSession, Client, Now, device, update,
  outside,
}
use kdeconnect_nx.Client.Send.{
  push_line, send_to, send_packet, send_all, connect_plugins, notify_plugins_connected,
}
use kdeconnect_nx.Client.Pairing.{
  is_skewed, complete_pairing, drop_pairing, peer_wants_pair, peer_unpairs, handle_pair_packet,
  pair_type, set_pairing,
}
use kdeconnect_nx.Client.Dispatch.{offer_types, offer_plugins, handle_parsed, handle_packet}

module _ {P : Type 0} where
  -- The queue of session `k` in the second client is that of the first with something appended.
  abbrev pub Appends : ℕ → Client P → Client P → Type 0
  Appends k c c' = (new : List Text) × ((c'.heap k).send_queue ≡ (c.heap k).send_queue ++ new)

  pub Appends-same :
      (k : ℕ) (c c' : Client P) → (c'.heap k).send_queue ≡ (c.heap k).send_queue → Appends k c c'
  Appends-same k c c' e = ([], e ∙ sym (append-nil (c.heap k).send_queue))

  pub Appends-trans : (k : ℕ) (a b c : Client P) → Appends k a b → Appends k b c → Appends k a c
  Appends-trans k a b c f g =
      (f.0 ++ g.0, g.1 ∙ ap (λ q. q ++ g.0) f.1 ∙ append_assoc (a.heap k).send_queue f.0 g.0)

  -- An update that leaves the queue alone.
  pub Appends-update :
      (k h : ℕ) (f : DeviceSession P → DeviceSession P) (c : Client P)
      → (f (c.heap h)).send_queue ≡ (c.heap h).send_queue
      → Appends k c (update h f c)
  Appends-update k h f c e = Appends-same k c (update h f c) (ground (arith, e))

module _ (y : Yyjson) (host : PluginHost y) where
  open host use {Plugin}

  Appends-send_to :
      (k : ℕ) (o : Option ℕ) (now : Now) (p : NetworkPacket y) (c : Client Plugin)
      → Appends k c (send_to y host o now p c).0
  unfolding send_to push_line
  Appends-send_to k none now p c = Appends-same k c c refl
  Appends-send_to k (some h) now p c = elim (Bool-cases (c.heap h).disconnected) [
    | inl off ↦ rw off (Appends-same k c c refl)
    | inr on ↦ elim (Bool-cases (k == h)) [
      | inl same ↦ (serialize y now.milliseconds p ∷ [], ground arith)
      | inr other ↦ ([], ground (arith, append-nil (c.heap k).send_queue))
    ]
  ]

  Appends-send_all :
      (k : ℕ) (now : Now) (id : Text) (ps : List (NetworkPacket y)) (c : Client Plugin)
      → Appends k c (send_all y host now id ps c)
  unfolding send_all send_packet
  Appends-send_all k now id [] c = Appends-same k c c refl
  Appends-send_all k now id (p ∷ ps) c =
      let c1 = (send_to y host (device c id) now p c).0 in
      Appends-trans k c c1 (send_all y host now id ps c1) (Appends-send_to k (device c id) now p c)
        (Appends-send_all k now id ps c1)

  Appends-connect_plugins :
      (k : ℕ) (now : Now) (id : Text) (b : Bool) (ps : List Plugin) (c : Client Plugin)
      → Appends k c (connect_plugins y host now id b ps c).0
  unfolding connect_plugins
  Appends-connect_plugins k now id b [] c = Appends-same k c c refl
  Appends-connect_plugins k now id b (p ∷ ps) c =
      let c1 = send_all y host now id (host.on_connected b p).1 c in
      Appends-trans k c c1 (connect_plugins y host now id b ps c1).0
        (Appends-send_all k now id (host.on_connected b p).1 c)
        (Appends-connect_plugins k now id b ps c1)

  Appends-notify_plugins_connected :
      (k : ℕ) (now : Now) (h : ℕ) (c : Client Plugin)
      → Appends k c (notify_plugins_connected y host now h c)
  unfolding notify_plugins_connected
  Appends-notify_plugins_connected k now h c =
      let s = c.heap h in
      let done = connect_plugins y host now s.info.id s.is_paired s.plugins c in
      let set = λ (t : DeviceSession Plugin). record t { plugins = done.1 } in
      Appends-trans k c done.0 (update h set done.0)
        (Appends-connect_plugins k now s.info.id s.is_paired s.plugins c)
        (Appends-update k h set done.0 refl)

  Appends-offer_types :
      (k : ℕ) (now : Now) (id : Text) (np : NetworkPacket y) (ts : List Text) (p : Plugin)
      (c : Client Plugin)
      → Appends k c (offer_types y host now id np ts p c).0
  unfolding offer_types
  Appends-offer_types k now id np [] p c = Appends-same k c c refl
  Appends-offer_types k now id np (t ∷ ts) p c = elim (Bool-cases (eq_text t np.type)) [
    | inl same ↦
        let (p', handled, sent, disk, posted) = host.on_packet_received c.disk np p in
        let c0 = outside disk posted c in
        let c1 = send_all y host now id sent c0 in
        let told =
          Appends-trans k c c0 c1 (Appends-same k c c0 refl) (Appends-send_all k now id sent c0) in
        elim (Bool-cases handled) [
          | inl done ↦ rw (same, done) told
          | inr more ↦
              rw (same, more)
                (Appends-trans k c c1 (offer_types y host now id np ts p' c1).0 told
                  (Appends-offer_types k now id np ts p' c1))
        ]
    | inr other ↦ rw other (Appends-offer_types k now id np ts p c)
  ]

  Appends-offer_plugins :
      (k : ℕ) (now : Now) (id : Text) (np : NetworkPacket y) (ps : List Plugin) (c : Client Plugin)
      → Appends k c (offer_plugins y host now id np ps c).0
  unfolding offer_plugins
  Appends-offer_plugins k now id np [] c = Appends-same k c c refl
  Appends-offer_plugins k now id np (p ∷ ps) c =
      let first = offer_types y host now id np (host.supported_packet_types p) p c in
      let one = Appends-offer_types k now id np (host.supported_packet_types p) p c in
      elim (Bool-cases first.2) [
        | inl handled ↦ rw handled one
        | inr not_yet ↦ rw not_yet (
            Appends-trans k c first.0 (offer_plugins y host now id np ps first.0).0 one
              (Appends-offer_plugins k now id np ps first.0))
      ]

module _ (y : Yyjson) (host : PluginHost y) (sha256_hex_upper : Text → Text) (base : Text) where
  open host use {Plugin}

  pub Appends-complete_pairing :
      (k : ℕ) (now : Now) (h : ℕ) (c : Client Plugin)
      → Appends k c (complete_pairing y host sha256_hex_upper base now h c)
  unfolding complete_pairing
  Appends-complete_pairing k now h c =
      let c1 = record (update h (set_pairing paired true) c) {
        disk = save_paired_device y base c.disk (c.heap h).info (c.heap h).cert_pem;
      } in
      Appends-trans k c c1 (notify_plugins_connected y host now h c1)
        (Appends-same k c c1 (ground arith)) (Appends-notify_plugins_connected y host k now h c1)

  Appends-peer_unpairs :
      (k h : ℕ) (c : Client Plugin) → Appends k c (peer_unpairs y host sha256_hex_upper base h c)
  unfolding peer_unpairs drop_pairing
  Appends-peer_unpairs k h c =
      Appends-same k c (peer_unpairs y host sha256_hex_upper base h c) (ground arith)

  Appends-peer_wants_pair :
      (k : ℕ) (now : Now) (h : ℕ) (ts : ℤ) (c : Client Plugin)
      → Appends k c (peer_wants_pair y host sha256_hex_upper base now h ts c)
  unfolding peer_wants_pair
  Appends-peer_wants_pair k now h ts c =
      let completed = Appends-complete_pairing k now h c in
      elim (Bool-cases (is_skewed now.seconds ts)) [
        | inl late ↦ rw late (Appends-same k c c refl)
        | inr on_time ↦ elim (Bool-cases (is_requested (c.heap h).pair_state)) [
          | inl asked ↦ elim (Bool-cases (is_empty (c.heap h).cert_pem)) [
            | inl bare ↦ rw (on_time, asked, bare) (Appends-same k c c refl)
            | inr known ↦ rw (on_time, asked, known) completed
          ]
          | inr idle ↦
              rw (on_time, idle)
                (Appends-update k h
                  (λ t. record t { pair_state = requested_by_peer; pairing_timestamp = ts }) c refl)
        ]
      ]

  Appends-handle_parsed :
      (k : ℕ) (now : Now) (h : ℕ) (o : Option (NetworkPacket y)) (c : Client Plugin)
      → Appends k c (handle_parsed y host sha256_hex_upper base now h o c)
  unfolding handle_parsed handle_pair_packet
  Appends-handle_parsed k now h none c = Appends-same k c c refl
  Appends-handle_parsed k now h (some np) c =
      let s = c.heap h in
      let done = offer_plugins y host now s.info.id np s.plugins c in
      let set = λ (t : DeviceSession Plugin). record t { plugins = done.1 } in
      elim (Bool-cases (eq_text np.type pair_type)) [
        | inl pair ↦ elim (Bool-cases (Body.value_bool y np.body (bytes "pair") false)) [
          | inl wants ↦
              rw (pair, wants)
                (Appends-peer_wants_pair k now h
                  (Body.value_i64 y np.body (bytes "timestamp") (pos 0)) c)
          | inr refuses ↦ rw (pair, refuses) (Appends-peer_unpairs k h c)
        ]
        | inr other ↦ elim (Bool-cases (c.heap h).is_paired) [
          | inl trusted ↦
              rw (other, trusted)
                (Appends-trans k c done.0 (update h set done.0)
                  (Appends-offer_plugins y host k now s.info.id np s.plugins c)
                  (Appends-update k h set done.0 refl))
          | inr unpaired ↦ rw (other, unpaired) (Appends-same k c c refl)
        ]
      ]

  pub Appends-handle_packet :
      (k : ℕ) (now : Now) (h : ℕ) (line : Text) (c : Client Plugin)
      → Appends k c (handle_packet y host sha256_hex_upper base now h line c)
  unfolding handle_packet
  Appends-handle_packet k now h line c = Appends-handle_parsed k now h (parse y line) c
