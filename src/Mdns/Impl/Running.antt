-- ===== src/Mdns/Impl/Running.antt =====
-- What starts and stops leave open.
use kdeconnect_nx.Prelude.{
  ℕ, ◌+◌, Bool, true, false, Option, none, some, List, [], ◌∷◌, ◌++◌, ◌≡◌, refl, sym, ap, ◌∙◌,
  arith, if◌then◌else◌, append_assoc, append-nil, is_some, Bool-cases, inl, inr,
}
use kdeconnect_nx.Mdns.{AnnouncedInfo}
use kdeconnect_nx.Mdns.Impl.{
  Effect, opened, closed, announced_multicast, goodbye_multicast, query_sent, Impl, announce,
  send_query, start_discovery, start_service, start, stop,
}

-- A call from outside, with the sockets that can be opened meanwhile.
pub data Call : Type 0 where
  start_call : AnnouncedInfo → Option ℕ → Option ℕ → Call
  stop_call : Call

abbrev pub call : Call → Impl → Impl × List Effect
call (start_call info service discovery) s = let r = start info service discovery s in (r.0, r.2)
call stop_call s = stop s

abbrev pub calls : List Call → Impl → Impl × List Effect
calls [] s = (s, [])
calls (c ∷ cs) s = let r = call c s in let rest = calls cs r.0 in (rest.0, r.1 ++ rest.1)

-- The sockets that were opened, and those that were closed.
abbrev pub opens : List Effect → List ℕ
opens [] = []
opens (opened fd ∷ es) = fd ∷ opens es
opens (closed fd ∷ es) = opens es
opens (announced_multicast r rs ∷ es) = opens es
opens (goodbye_multicast r rs ∷ es) = opens es
opens (query_sent ∷ es) = opens es

abbrev pub closes : List Effect → List ℕ
closes [] = []
closes (opened fd ∷ es) = closes es
closes (closed fd ∷ es) = fd ∷ closes es
closes (announced_multicast r rs ∷ es) = closes es
closes (goodbye_multicast r rs ∷ es) = closes es
closes (query_sent ∷ es) = closes es

abbrev pub announcements : List Effect → ℕ
announcements [] = 0
announcements (opened fd ∷ es) = announcements es
announcements (closed fd ∷ es) = announcements es
announcements (announced_multicast r rs ∷ es) = 1 + announcements es
announcements (goodbye_multicast r rs ∷ es) = announcements es
announcements (query_sent ∷ es) = announcements es

abbrev pub goodbyes : List Effect → ℕ
goodbyes [] = 0
goodbyes (opened fd ∷ es) = goodbyes es
goodbyes (closed fd ∷ es) = goodbyes es
goodbyes (announced_multicast r rs ∷ es) = goodbyes es
goodbyes (goodbye_multicast r rs ∷ es) = 1 + goodbyes es
goodbyes (query_sent ∷ es) = goodbyes es

abbrev pub held_socket : Option ℕ → List ℕ
held_socket none = []
held_socket (some fd) = fd ∷ []

abbrev pub held : Impl → List ℕ
held s = held_socket s.service_socket ++ held_socket s.discovery_socket

-- Both sockets are open while the thread runs, and none else.
pub record IsCoherent (s : Impl) : Type 0 where
  pub service_open : is_some s.service_socket ≡ s.running
  pub discovery_open : is_some s.discovery_socket ≡ s.running

-- What the effects have opened and not closed is held; what was announced and not taken back is the
-- running service.
pub record Accounts (before : Impl) (es : List Effect) (after : Impl) : Type 0 where
  pub sockets : held before ++ opens es ≡ closes es ++ held after
  pub service :
      announcements es + (if before.running then 1 else 0)
      ≡ goodbyes es + (if after.running then 1 else 0)

opens-append : (xs ys : List Effect) → opens (xs ++ ys) ≡ opens xs ++ opens ys
opens-append [] ys = refl
opens-append (opened fd ∷ xs) ys = ap (◌∷◌ fd) (opens-append xs ys)
opens-append (closed fd ∷ xs) ys = opens-append xs ys
opens-append (announced_multicast r rs ∷ xs) ys = opens-append xs ys
opens-append (goodbye_multicast r rs ∷ xs) ys = opens-append xs ys
opens-append (query_sent ∷ xs) ys = opens-append xs ys

closes-append : (xs ys : List Effect) → closes (xs ++ ys) ≡ closes xs ++ closes ys
closes-append [] ys = refl
closes-append (opened fd ∷ xs) ys = closes-append xs ys
closes-append (closed fd ∷ xs) ys = ap (◌∷◌ fd) (closes-append xs ys)
closes-append (announced_multicast r rs ∷ xs) ys = closes-append xs ys
closes-append (goodbye_multicast r rs ∷ xs) ys = closes-append xs ys
closes-append (query_sent ∷ xs) ys = closes-append xs ys

announcements-append :
    (xs ys : List Effect) → announcements (xs ++ ys) ≡ announcements xs + announcements ys
announcements-append [] ys = omega arith
announcements-append (opened fd ∷ xs) ys = announcements-append xs ys
announcements-append (closed fd ∷ xs) ys = announcements-append xs ys
announcements-append (announced_multicast r rs ∷ xs) ys = omega (arith, announcements-append xs ys)
announcements-append (goodbye_multicast r rs ∷ xs) ys = announcements-append xs ys
announcements-append (query_sent ∷ xs) ys = announcements-append xs ys

goodbyes-append : (xs ys : List Effect) → goodbyes (xs ++ ys) ≡ goodbyes xs + goodbyes ys
goodbyes-append [] ys = omega arith
goodbyes-append (opened fd ∷ xs) ys = goodbyes-append xs ys
goodbyes-append (closed fd ∷ xs) ys = goodbyes-append xs ys
goodbyes-append (announced_multicast r rs ∷ xs) ys = goodbyes-append xs ys
goodbyes-append (goodbye_multicast r rs ∷ xs) ys = omega (arith, goodbyes-append xs ys)
goodbyes-append (query_sent ∷ xs) ys = goodbyes-append xs ys

start_service-lem :
    (info : AnnouncedInfo) (service discovery : Option ℕ) (s : Impl)
    → IsCoherent s
    → s.running ≡ false
    → let r = start_service info service discovery s in IsCoherent r.0 × Accounts s r.2 r.0
unfolding start_service start_discovery announce send_query
start_service-lem info none discovery s h idle = ground arith
start_service-lem info (some service) none s h idle = ground arith
start_service-lem info (some service) (some discovery) s h idle = ground arith

stop_lem : (s : Impl) → IsCoherent s → let r = stop s in IsCoherent r.0 × Accounts s r.1 r.0
unfolding stop announce
stop_lem s h = ground arith

start_running :
    (info : AnnouncedInfo) (service discovery : Option ℕ) (s : Impl)
    → s.running ≡ true
    → start info service discovery s ≡ (s, true, [])
unfolding start
start_running info service discovery s on = simp on

start_idle :
    (info : AnnouncedInfo) (service discovery : Option ℕ) (s : Impl)
    → s.running ≡ false
    → start info service discovery s ≡ start_service info service discovery s
unfolding start
start_idle info service discovery s off = simp off

call_lem :
    (c : Call) (s : Impl) → IsCoherent s → let r = call c s in IsCoherent r.0 × Accounts s r.1 r.0
call_lem stop_call s h = stop_lem s h
call_lem (start_call info service discovery) s h = elim (Bool-cases s.running) [
  | inl on ↦
      rw (start_running info service discovery s on)
        (h, record { sockets = append-nil _; service = refl })
  | inr off ↦
      rw (start_idle info service discovery s off)
        (start_service-lem info service discovery s h off)
]

Accounts-append :
    (a b c : Impl) (es fs : List Effect)
    → Accounts a es b
    → Accounts b fs c
    → Accounts a (es ++ fs) c
Accounts-append a b c es fs first second = record {
  sockets =
      ap (λ o. held a ++ o) (opens-append es fs)
      ∙ (sym (append_assoc (held a) (opens es) (opens fs))
          ∙ (ap (λ o. o ++ opens fs) first.sockets
              ∙ (append_assoc (closes es) (held b) (opens fs)
                  ∙ (ap (λ o. closes es ++ o) second.sockets
                      ∙ (sym (append_assoc (closes es) (closes fs) (held c))
                          ∙ ap (λ o. o ++ held c) (sym (closes-append es fs)))))));
  service =
      omega
        (arith, announcements-append es fs, goodbyes-append es fs, first.service, second.service);
}

calls_lem :
    (cs : List Call) (s : Impl)
    → IsCoherent s
    → let r = calls cs s in IsCoherent r.0 × Accounts s r.1 r.0
calls_lem [] s h = (h, record { sockets = append-nil _; service = refl })
calls_lem (c ∷ cs) s h =
    let (h1, first) = call_lem c s h in
    let (h2, rest) = calls_lem cs (call c s).0 h1 in (h2, Accounts-append s _ _ _ _ first rest)

no_sockets : (s : Impl) → IsCoherent s → s.running ≡ false → held s ≡ []
no_sockets s h idle = ground arith

stop_idle : (s : Impl) → (stop s).0.running ≡ false
unfolding stop
stop_idle s = ground arith

settled :
    (m n : ℕ) (p q : Bool)
    → p ≡ false
    → q ≡ false
    → m + (if p then 1 else 0) ≡ n + (if q then 1 else 0)
    → m ≡ n
settled m n p q hp hq e = ground arith

-- Whatever starts and stops were called on a service that did not run, with whatever sockets could
-- be opened: after one more stop every socket that was opened is closed, each once and in the order
-- of opening, no other socket was closed, and the service was taken back as often as it was announced.
pub calls-closes :
    (cs : List Call) (s : Impl)
    → IsCoherent s
    → s.running ≡ false
    → let r = calls cs s in
      let last = stop r.0 in
      (opens (r.1 ++ last.1) ≡ closes (r.1 ++ last.1))
      × (announcements (r.1 ++ last.1) ≡ goodbyes (r.1 ++ last.1))
      × (held last.0 ≡ [])
calls-closes cs s h idle =
    let r = calls cs s in
    let (h1, made) = calls_lem cs s h in
    let (h2, ended) = stop_lem r.0 h1 in
    let all = Accounts-append s r.0 (stop r.0).0 r.1 (stop r.0).1 made ended in
    let none_before : held s ≡ [] = no_sockets s h idle in
    let none_after : held (stop r.0).0 ≡ [] = no_sockets (stop r.0).0 h2 (stop_idle r.0) in
    (
      ap (λ o. o ++ opens (r.1 ++ (stop r.0).1)) (sym none_before)
          ∙ (all.sockets ∙ (ap (λ o. closes (r.1 ++ (stop r.0).1) ++ o) none_after ∙ append-nil _)),
      settled _ _ s.running (stop r.0).0.running idle (stop_idle r.0) all.service,
      none_after,
    )
