-- ===== src/Examples/Discovered.antt =====
-- Discovery by mDNS at concrete inputs.
use kdeconnect_nx.Prelude.{ℕ, Text, true, false, some, none, List, [], ◌∷◌, ◌++◌, ◌≡◌, refl}
use kdeconnect_nx.Mdns.{
  Record, ptr_record, srv_record, a_record, txt_record, AnnouncedInfo, Interface,
  build_announced_info, Answer, Seen, seen_ptr, seen_txt,
}
use kdeconnect_nx.Mdns.Found.{seen_additional, seen_texts}
use kdeconnect_nx.Mdns.Impl.{Impl, Effect, stop}
use kdeconnect_nx.Mdns.Impl.Running.{
  Call, start_call, calls, opens, closes, announcements, goodbyes, held, calls-closes,
}
use kdeconnect_nx.Examples.Devices.{phone}

-- An address is printed as one letter.
abbrev printed : ℕ → Text
printed a = b'A' ∷ []

-- What a receiver makes of an answer.
seen_of : Text → Record → List Record → List Seen
seen_of from (ptr_record name target) rs =
    seen_ptr target from ∷ (seen_additional rs ++ seen_txt (seen_texts rs) ∷ [])
seen_of from (srv_record name host port) rs = []
seen_of from (a_record name addr) rs = []
seen_of from (txt_record name key value) rs = []

abbrev received : Text → Answer → List Seen
received from answer = seen_of from answer.answer answer.additional

abbrev wireless : Interface
wireless = record {
  is_inet = true;
  is_up = true;
  is_multicast = true;
  is_loopback = false;
  address = 5;
}

abbrev phone_info : AnnouncedInfo
phone_info = build_announced_info (λ ts. ts) none (some (wireless ∷ [])) phone 1716

abbrev idle : Impl
idle = record {
  running = false;
  service_socket = none;
  discovery_socket = none;
  announced = phone_info;
  joinable = false;
}

-- A start that fails at its second socket, one that succeeds, and one too many.
abbrev history : List Call
history =
    start_call phone_info (some 3) none
    ∷ (start_call phone_info (some 3) (some 4) ∷ (start_call phone_info (some 5) none ∷ []))

abbrev history_run : Impl × List Effect
history_run = calls history idle

abbrev history_end : Impl × List Effect
history_end = stop history_run.0

calls-closes_example :
    (opens (history_run.1 ++ history_end.1) ≡ closes (history_run.1 ++ history_end.1))
    × (announcements (history_run.1 ++ history_end.1) ≡ goodbyes (history_run.1 ++ history_end.1))
    × (held history_end.0 ≡ [])
calls-closes_example =
    calls-closes history idle (record { service_open = refl; discovery_open = refl }) refl
