-- ===== src/Mdns/Impl.antt =====
-- `MdnsDiscovery::Impl`: the two sockets, the start and the stop of the thread, and its loop by turns.
-- Outside of these the calls of the library are effects, in their order.
pub mod Running
pub mod Turns
use kdeconnect_nx.Prelude.{
  ℕ, ◌+◌, Text, Bool, true, false, not, ◌||◌, ◌&&◌, Option, none, some, List, [], ◌∷◌, ◌++◌, leb,
  map, if◌then◌else◌, is_some,
}
use kdeconnect_nx.Mdns.{
  Record, AnnouncedInfo, make_ptr_record, make_srv_record, address_records, txt_records_of,
  Question, Answer, Reply, silent, past_end, service_callback, Seen, no_query_state, query_recv,
  peer_found,
}

pub data Effect : Type 0 where
  opened : ℕ → Effect
  closed : ℕ → Effect
  announced_multicast : Record → List Record → Effect
  goodbye_multicast : Record → List Record → Effect
  query_sent : Effect

pub record Impl : Type 0 where
  pub running : Bool
  pub service_socket : Option ℕ
  pub discovery_socket : Option ℕ
  pub announced : AnnouncedInfo
  pub joinable : Bool

-- `additional` of `announce`.
unfoldable pub announced_records : AnnouncedInfo → List Record
announced_records self = make_srv_record self ∷ (address_records self ++ txt_records_of self)

unfoldable pub announce : Bool → Impl → List Effect
announce goodbye s =
    let answer = make_ptr_record s.announced in
    let additional = announced_records s.announced in
    if not (is_some s.service_socket)
    then []
    else (if goodbye
        then goodbye_multicast answer additional
        else announced_multicast answer additional)
      ∷ []

unfoldable pub send_query : Impl → List Effect
send_query s = if is_some s.discovery_socket then query_sent ∷ [] else []

abbrev pub close_socket : Option ℕ → List Effect
close_socket none = []
close_socket (some fd) = closed fd ∷ []

abbrev pub started : AnnouncedInfo → ℕ → ℕ → Impl → Impl
started info service discovery s = record {
  running = true;
  service_socket = some service;
  discovery_socket = some discovery;
  announced = info;
  joinable = true;
}

-- The second socket of `start`, after the first.
unfoldable pub start_discovery : AnnouncedInfo → ℕ → Option ℕ → Impl → Impl × Bool × List Effect
start_discovery info service none s = (
  record s { running = false; service_socket = none; discovery_socket = none },
  false,
  opened service ∷ (closed service ∷ []),
)
start_discovery info service (some discovery) s =
    let s1 = started info service discovery s in
    (s1, true, opened service ∷ (opened discovery ∷ (announce false s1 ++ send_query s1)))

unfoldable pub start_service :
    AnnouncedInfo → Option ℕ → Option ℕ → Impl → Impl × Bool × List Effect
unfolding start_discovery
start_service info none discovery s =
    (record s { running = false; service_socket = none }, false, [])
start_service info (some service) discovery s = start_discovery info service discovery s

-- `start`, with what `build_announced_info` gives and the sockets that can be opened.
unfoldable pub start : AnnouncedInfo → Option ℕ → Option ℕ → Impl → Impl × Bool × List Effect
unfolding start_service
start info service discovery s =
    if s.running then (s, true, []) else start_service info service discovery s

unfoldable pub stop : Impl → Impl × List Effect
stop s = if not s.running then (s, []) else (
  record s { running = false; service_socket = none; discovery_socket = none; joinable = false },
  announce true s ++ (close_socket s.service_socket ++ close_socket s.discovery_socket),
)

-- A turn of `mdns_loop`: the test of `running`, the clock in milliseconds, and the sockets that
-- `select` finds, with a question or the records of a datagram.
pub record Turn : Type 0 where
  pub still_running : Bool
  pub now : ℕ
  pub question : Option Question
  pub datagram : Option (List Seen)

-- What a turn does. After a record was written past the end of the array nothing is known: the model
-- notes it and goes on.
pub data Deed : Type 0 where
  queried : ℕ → Deed
  answered : Answer → Deed
  overrun : Deed
  found : Text → Text → Deed

abbrev pub k_query_repeat : ℕ
k_query_repeat = 15000

unfoldable pub answer_deed : Reply → List Deed
answer_deed silent = []
answer_deed past_end = overrun ∷ []
answer_deed (Reply.answered a) = answered a ∷ []

unfoldable pub found_deed : Option (Text × Text) → List Deed
found_deed none = []
found_deed (some (id, host)) = found id host ∷ []

unfoldable pub answers : AnnouncedInfo → Option Question → List Deed
answers self none = []
answers self (some q) = answer_deed (service_callback self q)

module _ (ipv4_to_string : ℕ → Text) (self : AnnouncedInfo) (local_id : Text) where
  unfoldable pub finds : Option (List Seen) → List Deed
  finds none = []
  finds (some records) =
      found_deed (peer_found local_id (query_recv ipv4_to_string records no_query_state))

  -- The loop with both sockets open, from the time of the next query on.
  unfoldable pub mdns_loop : ℕ → List Turn → List Deed
  mdns_loop next_query [] = []
  mdns_loop next_query (t ∷ ts) =
      let is_due = leb next_query t.now in
      let rest = mdns_loop (if is_due then t.now + k_query_repeat else next_query) ts in
      if t.still_running
      then (if is_due then queried t.now ∷ [] else [])
        ++ (answers self t.question ++ (finds t.datagram ++ rest))
      else []
