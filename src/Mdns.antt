-- ===== src/Mdns.antt =====
-- sysmodule/src/mdns/mdns_discovery.{h,cpp}: what this device announces by mDNS, how it answers
-- queries, and what it learns of others. The packets are those of mdns.h, a library: a question comes
-- with the name that it extracts, and a record of an answer as what it parses.
pub mod Impl
pub mod Found
pub mod Room
use kdeconnect_nx.Prelude.{
  ℕ, ◌%◌, ◌^◌, Text, bytes, Bool, true, false, not, ◌||◌, ◌&&◌, Option, none, some, List, [], ◌∷◌,
  ◌++◌, ◌==◌, leb, length, map, if◌then◌else◌, eq_text, is_empty,
}
use kdeconnect_nx.Identity.{DeviceInfo}
use kdeconnect_nx.Client.Key.{to_string}

-- `mdns_record_type_t`
pub data RecordType : Type 0 where
  ptr srv a txt any other : RecordType

abbrev pub is_ptr : RecordType → Bool
is_ptr ptr = true
is_ptr _ = false

abbrev pub is_srv : RecordType → Bool
is_srv srv = true
is_srv _ = false

abbrev pub is_a : RecordType → Bool
is_a a = true
is_a _ = false

abbrev pub is_any : RecordType → Bool
is_any any = true
is_any _ = false

-- `mdns_record_t` with its name and what it says.
pub data Record : Type 0 where
  ptr_record : Text → Text → Record
  srv_record : Text → Text → ℕ → Record
  a_record : Text → ℕ → Record
  txt_record : Text → Text → Text → Record

-- An unordered map is a list in the order in which it is gone through.
pub record AnnouncedInfo : Type 0 where
  pub service_type : Text
  pub service_instance : Text
  pub hostname : Text
  pub addresses_v4 : List ℕ
  pub port : ℕ
  pub txt_records : List (Text × Text)

-- An entry of `getifaddrs`.
pub record Interface : Type 0 where
  pub is_inet : Bool
  pub is_up : Bool
  pub is_multicast : Bool
  pub is_loopback : Bool
  pub address : ℕ

abbrev pub k_service_type : Text
k_service_type = bytes "_kdeconnect._udp.local."

-- With the name that `gethostname` gives, if it gives one.
unfoldable pub hostname_or_default : Option Text → Text
hostname_or_default none = bytes "MiniKDEConnect.local."
hostname_or_default (some buffer) =
    if is_empty buffer then bytes "MiniKDEConnect.local." else buffer ++ bytes ".local."

unfoldable pub addresses_of : List Interface → List ℕ
addresses_of [] = []
addresses_of (i ∷ is) =
    let rest = addresses_of is in
    if not i.is_inet
    then rest
    else if not i.is_up || (not i.is_multicast || i.is_loopback)
    then rest
    else i.address ∷ rest

-- The branch that has `getifaddrs`.
unfoldable pub collect_ipv4_addresses : Option (List Interface) → List ℕ
unfolding addresses_of
collect_ipv4_addresses none = []
collect_ipv4_addresses (some is) = addresses_of is

-- `static_cast<uint16_t>` of a port that is not negative.
unfoldable pub build_announced_info :
    (List (Text × Text) → List (Text × Text))
    → Option Text
    → Option (List Interface)
    → DeviceInfo
    → ℕ
    → AnnouncedInfo
build_announced_info order host interfaces local_device tcp_port = record {
  service_type = k_service_type;
  service_instance = local_device.id ++ (bytes "." ++ k_service_type);
  hostname = hostname_or_default host;
  addresses_v4 = collect_ipv4_addresses interfaces;
  port = tcp_port % 2 ^ 16;
  txt_records = order (
      (bytes "id", local_device.id)
      ∷ ((bytes "name", local_device.name)
          ∷ ((bytes "type", local_device.type)
              ∷ ((bytes "protocol", to_string local_device.protocol_version) ∷ []))));
}

-- `make_record` of each type, with the argument that the type reads.
unfoldable pub make_ptr_record : AnnouncedInfo → Record
make_ptr_record self = ptr_record self.service_type self.service_instance

unfoldable pub make_srv_record : AnnouncedInfo → Record
make_srv_record self = srv_record self.service_instance self.hostname self.port

unfoldable pub make_a_record : AnnouncedInfo → ℕ → Record
make_a_record self addr = a_record self.hostname addr

unfoldable pub make_txt_record : AnnouncedInfo → Text × Text → Record
make_txt_record self (key, value) = txt_record self.service_instance key value

-- The loops that append the addresses and the texts.
unfoldable pub address_records : AnnouncedInfo → List Record
address_records self = map (make_a_record self) self.addresses_v4

unfoldable pub txt_records_of : AnnouncedInfo → List Record
txt_records_of self = map (make_txt_record self) self.txt_records

-- A question as `service_callback` is called with it.
pub record Question : Type 0 where
  pub is_question : Bool
  pub record_type : RecordType
  pub wants_unicast : Bool
  pub queried_name : Text

pub record Answer : Type 0 where
  pub unicast : Bool
  pub answer : Record
  pub additional : List Record

-- What a call of `service_callback` comes to: nothing is sent, an answer is, or a record was written
-- past the end of `additional`, after which nothing is known.
pub data Reply : Type 0 where
  silent past_end : Reply
  answered : Answer → Reply

-- The length of `mdns_record_t additional[64]`.
abbrev pub additional_max : ℕ
additional_max = 64

-- `write_records`, with what was put into the array.
abbrev pub write_records : Question → Record → List Record → Reply
write_records q answer additional =
    if leb (length additional) additional_max
    then answered (record { unicast = q.wants_unicast; answer = answer; additional = additional })
    else past_end

-- The branch for the name of the host, with the addresses.
unfoldable pub answer_host : AnnouncedInfo → Question → List ℕ → Reply
answer_host self q [] = silent
answer_host self q (address ∷ addresses) =
    write_records q (make_a_record self address) (txt_records_of self)

unfoldable pub service_callback : AnnouncedInfo → Question → Reply
unfolding answer_host
service_callback self q =
    if not q.is_question
    then silent
    else if eq_text q.queried_name self.service_type
        && (is_ptr q.record_type || is_any q.record_type)
    then write_records q (make_ptr_record self)
        (make_srv_record self ∷ (address_records self ++ txt_records_of self))
    else if eq_text q.queried_name self.service_instance
        && (is_srv q.record_type || is_any q.record_type)
    then write_records q (make_srv_record self) (address_records self ++ txt_records_of self)
    else if eq_text q.queried_name self.hostname && (is_a q.record_type || is_any q.record_type)
    then answer_host self q self.addresses_v4
    else silent

-- A record as `discovery_callback` sees it: the name of a PTR with the address that sent it, the
-- address of an A, if it can be parsed, and the first sixteen pairs of a TXT.
pub data Seen : Type 0 where
  seen_ptr : Text → Text → Seen
  seen_a : Option ℕ → Seen
  seen_txt : List (Text × Text) → Seen
  seen_other : Seen

pub record QueryState : Type 0 where
  pub instance_id : Text
  pub host : Text
  pub device_id : Text
  pub saw_ptr : Bool

abbrev pub no_query_state : QueryState
no_query_state = record { instance_id = []; host = []; device_id = []; saw_ptr = false }

-- `find('.')` and `resize`.
unfoldable pub before_first_dot : Text → Text
before_first_dot [] = []
before_first_dot (c ∷ cs) = if c == b'.' then [] else c ∷ before_first_dot cs

-- The loop over the pairs, up to the first `id`.
unfoldable pub read_id : List (Text × Text) → Text → Text
read_id [] device_id = device_id
read_id ((key, value) ∷ records) device_id =
    if eq_text key (bytes "id") then value else read_id records device_id

-- What `on_peer_found` is called with, if it is.
unfoldable pub peer_found : Text → QueryState → Option (Text × Text)
peer_found local_id s =
    if s.saw_ptr
      && (not (is_empty s.instance_id)
          && (not (is_empty s.host)
              && (not (is_empty s.device_id) && not (eq_text s.device_id local_id))))
    then some (s.device_id, s.host)
    else none

module _ (ipv4_to_string : ℕ → Text) where
  unfoldable pub discovery_callback : Seen → QueryState → QueryState
  discovery_callback (seen_ptr name from) s = record s {
    instance_id = before_first_dot name;
    host = from;
    saw_ptr = true;
  }
  discovery_callback (seen_a none) s = s
  discovery_callback (seen_a (some addr)) s = record s { host = ipv4_to_string addr }
  discovery_callback (seen_txt records) s = record s { device_id = read_id records s.device_id }
  discovery_callback seen_other s = s

  -- `mdns_query_recv` calls the callback for each record of a datagram.
  unfoldable pub query_recv : List Seen → QueryState → QueryState
  query_recv [] s = s
  query_recv (r ∷ rs) s = query_recv rs (discovery_callback r s)
