-- ===== src/Client/Pairing/Consent.antt =====
-- Which sessions the pairing handlers make paired, and the states that they can reach.
use kdeconnect_nx.Prelude.{ℕ, Text, bytes, true, false, some, ◌≡◌, arith, is_empty}
use kdeconnect_nx.Prelude.Int.{pos}
use kdeconnect_nx.Json.Yyjson.{Yyjson}
use kdeconnect_nx.Json.Body
use kdeconnect_nx.Json.Body.{JsonBody}
use kdeconnect_nx.Client.State.{
  not_paired, requested, requested_by_peer, paired, PluginHost, Client, Now, device,
}
use kdeconnect_nx.Client.Pairing.{
  is_skewed, handle_pair_packet, request_pair, accept_pair, reject_pair, unpair,
}
use kdeconnect_nx.Client.Pairing.Status.{
  Status, status, peer-status, request-status, accept-status, reject-status, unpair-status,
}

-- A pairing operation: a packet of the peer on a session, or a request of the user for a device.
pub data Operation (y : Yyjson) : Type 0 where
  peer_sends : ℕ → JsonBody y → Operation y
  user_requests : Text → Operation y
  user_accepts : Text → Operation y
  user_rejects : Text → Operation y
  user_unpairs : Text → Operation y

module _ (y : Yyjson) (host : PluginHost y) (sha256_hex_upper : Text → Text) (base : Text) where
  open host use {Plugin}

  unfoldable pub perform : Now → Operation y → Client Plugin → Client Plugin
  perform now (peer_sends h body) c = handle_pair_packet y host sha256_hex_upper base now h body c
  perform now (user_requests id) c = request_pair y host sha256_hex_upper base now id c
  perform now (user_accepts id) c = accept_pair y host sha256_hex_upper base now id c
  perform now (user_rejects id) c = reject_pair y host sha256_hex_upper base now id c
  perform now (user_unpairs id) c = unpair y host sha256_hex_upper base now id c

  -- What has to be so for the operation to make session `k` paired.
  abbrev pub Causes : Now → Operation y → Client Plugin → ℕ → Type 0
  Causes now (peer_sends h body) c k =
      (h ≡ k)
      × ((c.heap k).pair_state ≡ requested)
      × (Body.value_bool y body (bytes "pair") false ≡ true)
      × (is_skewed now.seconds (Body.value_i64 y body (bytes "timestamp") (pos 0)) ≡ false)
      × (is_empty (c.heap k).cert_pem ≡ false)
  Causes now (user_accepts id) c k = (device c id ≡ some k) × (is_empty (c.heap k).cert_pem ≡ false)
  Causes now _ c k = ⊥

  -- A session that was not paired becomes paired in two ways only: the user accepts the device that
  -- the map holds it for, or this device had requested the pairing and the peer's pair packet, with
  -- `pair` set and an unskewed timestamp, arrives on it. In both its certificate is known.
  pub perform_consent :
      (now : Now) (op : Operation y) (c : Client Plugin) (k : ℕ)
      → (c.heap k).is_paired ≡ false
      → ((perform now op c).heap k).is_paired ≡ true
      → Causes now op c k
  unfolding perform request_pair accept_pair reject_pair unpair
  perform_consent now (peer_sends h body) c k before after =
      ground (arith, peer-status y host sha256_hex_upper base k now h body c)
  perform_consent now (user_requests id) c k before after =
      ground (arith, request-status y host sha256_hex_upper base k now id (device c id) c)
  perform_consent now (user_accepts id) c k before after =
      ground (arith, accept-status y host sha256_hex_upper base k now id (device c id) c)
  perform_consent now (user_rejects id) c k before after =
      ground (arith, reject-status y host sha256_hex_upper base k now id (device c id) c)
  perform_consent now (user_unpairs id) c k before after =
      ground (arith, unpair-status y host sha256_hex_upper base k now id (device c id) c)

  -- The paired flag is what the state says. A request of the peer leaves the flag open: it may come on
  -- a session that is paired.
  abbrev pub IsCoherent : Status y host sha256_hex_upper base → Type 0
  IsCoherent (paired, is_paired) = is_paired ≡ true
  IsCoherent (requested, is_paired) = is_paired ≡ false
  IsCoherent (not_paired, is_paired) = is_paired ≡ false
  IsCoherent (requested_by_peer, is_paired) = Unit

  -- A session that the peer has requested counts as paired just if it did before.
  abbrev pub KeepsFlag :
      Status y host sha256_hex_upper base → Status y host sha256_hex_upper base → Type 0
  KeepsFlag before (requested_by_peer, is_paired) = is_paired ≡ before.1
  KeepsFlag before (paired, is_paired) = Unit
  KeepsFlag before (requested, is_paired) = Unit
  KeepsFlag before (not_paired, is_paired) = Unit

  -- Every pairing operation keeps every session coherent: the paired flag is set in the state Paired
  -- and not in the states NotPaired and Requested, and where the state is RequestedByPeer it is as it
  -- was before the operation.
  pub perform-IsCoherent :
      (now : Now) (op : Operation y) (c : Client Plugin) (k : ℕ)
      → ((j : ℕ) → IsCoherent (status y host sha256_hex_upper base j c))
      → let after = status y host sha256_hex_upper base k (perform now op c) in
        IsCoherent after × KeepsFlag (status y host sha256_hex_upper base k c) after
  unfolding perform request_pair accept_pair reject_pair unpair
  perform-IsCoherent now (peer_sends h body) c k v =
      ground (arith, peer-status y host sha256_hex_upper base k now h body c, v k, v h)
  perform-IsCoherent now (user_requests id) c k v =
      ground (arith, request-status y host sha256_hex_upper base k now id (device c id) c, v k)
  perform-IsCoherent now (user_accepts id) c k v =
      ground (arith, accept-status y host sha256_hex_upper base k now id (device c id) c, v k)
  perform-IsCoherent now (user_rejects id) c k v =
      ground (arith, reject-status y host sha256_hex_upper base k now id (device c id) c, v k)
  perform-IsCoherent now (user_unpairs id) c k v =
      ground (arith, unpair-status y host sha256_hex_upper base k now id (device c id) c, v k)
