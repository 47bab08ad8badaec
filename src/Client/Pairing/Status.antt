-- ===== src/Client/Pairing/Status.antt =====
-- The pairing state of a session after each handler.
use kdeconnect_nx.Prelude.{
  ℕ, Text, bytes, Bool, true, false, not, ◌&&◌, Option, none, some, ◌≡◌, ◌⊎◌, refl, ap, ◌∙◌, arith,
  if◌then◌else◌, is_empty, ◌==◌, inl,
}
use kdeconnect_nx.Prelude.Int.{ℤ, pos}
use kdeconnect_nx.Json.Yyjson.{Yyjson}
use kdeconnect_nx.Json.Body
use kdeconnect_nx.Json.Body.{JsonBody}
use kdeconnect_nx.Packet.{NetworkPacket}
use kdeconnect_nx.Client.State.{
  PairState, not_paired, requested, requested_by_peer, paired, is_requested, PluginHost, Client,
  Now,
}
use kdeconnect_nx.Client.Send.{send_packet}
use kdeconnect_nx.Client.Frame.{frame-send_packet, frame-notify_plugins_connected}
use kdeconnect_nx.Client.Pairing.{
  is_skewed, complete_pairing, drop_pairing, peer_wants_pair, peer_unpairs, handle_pair_packet,
  request_sent, request_session, accept_sent, accept_session, drop_sent, reject_session,
  unpair_session, pair_packet, unpair_packet,
}

module _ (y : Yyjson) (host : PluginHost y) (sha256_hex_upper : Text → Text) (base : Text) where
  open host use {Plugin}

  -- The pairing state of a session, and whether it counts as paired.
  abbrev pub Status : Type 0
  Status = PairState × Bool

  abbrev pub status : ℕ → Client Plugin → Status
  status k c = ((c.heap k).pair_state, (c.heap k).is_paired)

  pub complete-status :
      (k : ℕ) (now : Now) (h : ℕ) (c : Client Plugin)
      → status k (complete_pairing y host sha256_hex_upper base now h c)
        ≡ (if k == h then (paired, true) else status k c)
  unfolding complete_pairing
  complete-status k now h c =
      ap (λ f. ((f.heap k).pair_state, (f.heap k).is_paired))
        (frame-notify_plugins_connected y host now h _)
      ∙ ground arith

  pub drop-status :
      (k h : ℕ) (c : Client Plugin)
      → status k (drop_pairing y host sha256_hex_upper base h c)
        ≡ (if k == h then (not_paired, false) else status k c)
  unfolding drop_pairing
  drop-status k h c = ground arith

  -- What a pair packet makes of the session that it arrives on.
  abbrev pub peer_next : Bool → Bool → Bool → Status → Status
  peer_next wants skewed no_cert (state, is_paired) =
      if not wants
      then (not_paired, false)
      else if skewed
      then (state, is_paired)
      else if not (is_requested state)
      then (requested_by_peer, is_paired)
      else if no_cert
      then (state, is_paired)
      else (paired, true)

  pub peer-status :
      (k : ℕ) (now : Now) (h : ℕ) (body : JsonBody y) (c : Client Plugin)
      → status k (handle_pair_packet y host sha256_hex_upper base now h body c) ≡ (
          if k == h
          then peer_next
              (Body.value_bool y body (bytes "pair") false)
              (is_skewed now.seconds (Body.value_i64 y body (bytes "timestamp") (pos 0)))
              (is_empty (c.heap h).cert_pem)
              (status h c)
          else status k c)
  unfolding handle_pair_packet peer_wants_pair peer_unpairs
  peer-status k now h body c = ground (arith, complete-status k now h c, drop-status k h c)

  -- Sending changes no status, and reaches only a session that is in the map and connected.
  pub sent-status :
      (k : ℕ) (now : Now) (id : Text) (p : NetworkPacket y) (c : Client Plugin)
      → status k (send_packet y host now id p c).0 ≡ status k c
  sent-status k now id p c =
      ap (λ f. ((f.heap k).pair_state, (f.heap k).is_paired)) (frame-send_packet y host now id p c)

  request_sent-status :
      (k h : ℕ) (ts : ℤ) (m : Client Plugin × Bool)
      → status k (request_sent y host sha256_hex_upper base h ts m)
        ≡ (if m.1 && (k == h) then (requested, (status k m.0).1) else status k m.0)
  unfolding request_sent
  request_sent-status k h ts (c, true) = ground arith
  request_sent-status k h ts (c, false) = refl

  pub request-status :
      (k : ℕ) (now : Now) (id : Text) (o : Option ℕ) (c : Client Plugin)
      → (status k (request_session y host sha256_hex_upper base now id o c) ≡ status k c)
        ⊎ ((o ≡ some k)
            × ((c.heap k).is_paired ≡ false)
            × (status k (request_session y host sha256_hex_upper base now id o c)
                ≡ (requested, false)))
  unfolding request_session
  request-status k now id none c = inl refl
  request-status k now id (some h) c =
      let p = pair_packet y host sha256_hex_upper base now.seconds in
      ground (
        arith,
        request_sent-status k h now.seconds (send_packet y host now id p c),
        sent-status k now id p c,
      )

  accept_sent-status :
      (k : ℕ) (now : Now) (h : ℕ) (m : Client Plugin × Bool)
      → status k (accept_sent y host sha256_hex_upper base now h m)
        ≡ (if m.1 && (k == h) then (paired, true) else status k m.0)
  unfolding accept_sent
  accept_sent-status k now h (c, true) = complete-status k now h c
  accept_sent-status k now h (c, false) = refl

  pub accept-status :
      (k : ℕ) (now : Now) (id : Text) (o : Option ℕ) (c : Client Plugin)
      → (status k (accept_session y host sha256_hex_upper base now id o c) ≡ status k c)
        ⊎ ((o ≡ some k)
            × (is_empty (c.heap k).cert_pem ≡ false)
            × (status k (accept_session y host sha256_hex_upper base now id o c) ≡ (paired, true)))
  unfolding accept_session
  accept-status k now id none c = inl refl
  accept-status k now id (some h) c =
      let p = pair_packet y host sha256_hex_upper base now.milliseconds in
      ground (
        arith,
        accept_sent-status k now h (send_packet y host now id p c),
        sent-status k now id p c,
      )

  drop_sent-status :
      (k h : ℕ) (m : Client Plugin × Bool)
      → status k (drop_sent y host sha256_hex_upper base h m)
        ≡ (if m.1 && (k == h) then (not_paired, false) else status k m.0)
  unfolding drop_sent
  drop_sent-status k h (c, true) = drop-status k h c
  drop_sent-status k h (c, false) = refl

  pub reject-status :
      (k : ℕ) (now : Now) (id : Text) (o : Option ℕ) (c : Client Plugin)
      → (status k (reject_session y host sha256_hex_upper base now id o c) ≡ status k c)
        ⊎ (status k (reject_session y host sha256_hex_upper base now id o c) ≡ (not_paired, false))
  unfolding reject_session
  reject-status k now id none c = inl refl
  reject-status k now id (some h) c =
      let p = unpair_packet y host sha256_hex_upper base in
      ground (arith, drop_sent-status k h (send_packet y host now id p c), sent-status k now id p c)

  pub unpair-status :
      (k : ℕ) (now : Now) (id : Text) (o : Option ℕ) (c : Client Plugin)
      → (status k (unpair_session y host sha256_hex_upper base now id o c) ≡ status k c)
        ⊎ (status k (unpair_session y host sha256_hex_upper base now id o c) ≡ (not_paired, false))
  unfolding unpair_session
  unpair-status k now id none c = inl refl
  unpair-status k now id (some h) c =
      let p = unpair_packet y host sha256_hex_upper base in
      ground (arith, drop_sent-status k h (send_packet y host now id p c), sent-status k now id p c)
