-- ===== src/Mdns/Found.antt =====
-- How two devices find each other.
use kdeconnect_nx.Prelude.{ℕ, Text, Bool, Option, some, List, [], ◌∷◌, ◌++◌, ◌≡◌, lookup}
use kdeconnect_nx.Identity.{DeviceInfo}
use kdeconnect_nx.Mdns.{
  Record, ptr_record, srv_record, a_record, txt_record, AnnouncedInfo, Interface,
  build_announced_info, make_ptr_record, make_srv_record, address_records, txt_records_of, Answer,
  Seen, seen_ptr, seen_a, seen_txt, seen_other,
}

-- The records of an answer, as its receiver sees them: its texts have one name, and come as the pairs
-- of one record.
abbrev pub seen_additional : List Record → List Seen
seen_additional [] = []
seen_additional (ptr_record name target ∷ rs) = seen_other ∷ seen_additional rs
seen_additional (srv_record name host port ∷ rs) = seen_other ∷ seen_additional rs
seen_additional (a_record name addr ∷ rs) = seen_a (some addr) ∷ seen_additional rs
seen_additional (txt_record name key value ∷ rs) = seen_additional rs

abbrev pub seen_texts : List Record → List (Text × Text)
seen_texts [] = []
seen_texts (txt_record name key value ∷ rs) = (key, value) ∷ seen_texts rs
seen_texts (ptr_record name target ∷ rs) = seen_texts rs
seen_texts (srv_record name host port ∷ rs) = seen_texts rs
seen_texts (a_record name addr ∷ rs) = seen_texts rs

-- What is relied on of mdns.h and of the network: an answer to a PTR question arrives whole.
abbrev pub Delivers : (Text → Answer → List Seen) → Type 0
Delivers wire =
    (from name target : Text) (unicast : Bool) (additional : List Record)
    → wire from
        (record { unicast = unicast; answer = ptr_record name target; additional = additional })
      ≡ seen_ptr target from ∷ (seen_additional additional ++ seen_txt (seen_texts additional) ∷ [])

module _ (ipv4_to_string : ℕ → Text) where
  -- The last address is the one that is called; where there is none, the sender's.
  abbrev pub heard_at : Text → List ℕ → Text
  heard_at host [] = host
  heard_at host (a ∷ addrs) = heard_at (ipv4_to_string a) addrs

  module _ (wire : Text → Answer → List Seen) (delivers : Delivers wire)
      (order : List (Text × Text) → List (Text × Text))
      (keeps : (k : Text) (ts : List (Text × Text)) → lookup k (order ts) ≡ lookup k ts) where
    module _ (host : Option Text) (interfaces : Option (List Interface)) (device : DeviceInfo)
        (tcp_port : ℕ) where
      abbrev self : AnnouncedInfo
      self = build_announced_info order host interfaces device tcp_port

      abbrev reply : Bool → Answer
      reply unicast = record {
        unicast = unicast;
        answer = make_ptr_record self;
        additional = make_srv_record self ∷ (address_records self ++ txt_records_of self);
      }
