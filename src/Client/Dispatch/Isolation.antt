-- ===== src/Client/Dispatch/Isolation.antt =====
-- What a peer cannot reach by its packets alone.
use kdeconnect_nx.Prelude.{
  ℕ, Text, false, Option, none, some, List, [], ◌∷◌, ◌≡◌, refl, ◌∙◌, arith, eq_text, Bool-cases,
  inl, inr,
}
use kdeconnect_nx.Json.Yyjson.{Yyjson}
use kdeconnect_nx.Json.Body.{JsonBody}
use kdeconnect_nx.Packet.{NetworkPacket, parse}
use kdeconnect_nx.Client.State.{is_requested, PluginHost, DeviceSession, Client, Now}
use kdeconnect_nx.Client.Pairing.{
  pair_type, handle_pair_packet, peer_wants_pair, peer_unpairs, drop_pairing,
}
use kdeconnect_nx.Client.Dispatch.{handle_parsed, handle_packet}

-- A session that is not paired, and on which this device has not asked for pairing.
pub record IsStranger {P : Type 0} (s : DeviceSession P) : Type 0 where
  pub unpaired : s.is_paired ≡ false
  pub not_requested : is_requested s.pair_state ≡ false

-- Session `k` has its plugins, its queue and its device as before.
pub record Untouched {P : Type 0} (k : ℕ) (c c' : Client P) : Type 0 where
  pub same_plugins : (c'.heap k).plugins ≡ (c.heap k).plugins
  pub same_queue : (c'.heap k).send_queue ≡ (c.heap k).send_queue
  pub same_id : (c'.heap k).info ≡ (c.heap k).info

module _ (y : Yyjson) (host : PluginHost y) (sha256_hex_upper : Text → Text) (base : Text) where
  open host use {Plugin}

  -- The lines that arrive on one session, one after the other.
  abbrev pub handle_lines : ℕ → List (Now × Text) → Client Plugin → Client Plugin
  handle_lines h [] c = c
  handle_lines h ((now, line) ∷ lines) c =
      handle_lines h lines (handle_packet y host sha256_hex_upper base now h line c)

  pair_packet-IsStranger :
      (now : Now) (h k : ℕ) (body : JsonBody y) (c : Client Plugin)
      → IsStranger (c.heap h)
      → let c' = handle_pair_packet y host sha256_hex_upper base now h body c in
        IsStranger (c'.heap h) × Untouched k c c'
  unfolding handle_pair_packet peer_wants_pair peer_unpairs drop_pairing
  pair_packet-IsStranger now h k body c s = ground arith

  parsed-IsStranger :
      (now : Now) (h k : ℕ) (o : Option (NetworkPacket y)) (c : Client Plugin)
      → IsStranger (c.heap h)
      → let c' = handle_parsed y host sha256_hex_upper base now h o c in
        IsStranger (c'.heap h) × Untouched k c c'
  unfolding handle_parsed
  parsed-IsStranger now h k none c s =
      (s, record { same_plugins = refl; same_queue = refl; same_id = refl })
  parsed-IsStranger now h k (some np) c s = elim (Bool-cases (eq_text np.type pair_type)) [
    | inl pair ↦ rw pair (pair_packet-IsStranger now h k np.body c s)
    | inr other ↦
        rw (other, s.unpaired)
          (s, record { same_plugins = refl; same_queue = refl; same_id = refl })
  ]

  -- Whatever lines a peer sends, pair packets included, on a session that is not paired and on which
  -- this device has not asked for pairing: the session stays so, no plugin of any session sees one of
  -- the lines, and nothing is put in any send queue.
  pub handle_lines-IsStranger :
      (h k : ℕ) (lines : List (Now × Text)) (c : Client Plugin)
      → IsStranger (c.heap h)
      → IsStranger ((handle_lines h lines c).heap h) × Untouched k c (handle_lines h lines c)
  unfolding handle_packet
  handle_lines-IsStranger h k [] c s =
      (s, record { same_plugins = refl; same_queue = refl; same_id = refl })
  handle_lines-IsStranger h k ((now, line) ∷ lines) c s =
      let (still, one) = parsed-IsStranger now h k (parse y line) c s in
      let (end, rest) =
        handle_lines-IsStranger h k lines
          (handle_parsed y host sha256_hex_upper base now h (parse y line) c) still in
      (
        end,
        record {
          same_plugins = rest.same_plugins ∙ one.same_plugins;
          same_queue = rest.same_queue ∙ one.same_queue;
          same_id = rest.same_id ∙ one.same_id;
        },
      )
