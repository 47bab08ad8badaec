-- ===== src/Ipc/Lifetime/Counted.antt =====
-- What is open after any calls of the start, the stop and the connection.
use kdeconnect_nx.Prelude.{
  ℕ, suc, ◌+◌, ◌-◌, ◌^◌, ◌<◌, Bool, false, not, ◌&&◌, ◌||◌, List, [], ◌∷◌, ◌≡◌, arith, length, ltb,
  if◌then◌else◌,
}
use kdeconnect_nx.Ipc.Lifetime.{
  IpcService, start_service, stop_service, Connection, initialize, exit,
}

pub data ServiceCall : Type 0 where
  starts : Bool → Bool → Bool → ServiceCall
  stops : ServiceCall

abbrev pub serve : List ServiceCall → IpcService → IpcService
serve [] s = s
serve (starts inits creates runs ∷ cs) s = serve cs (start_service inits creates runs s)
serve (stops ∷ cs) s = serve cs (stop_service s)

-- The name is registered and the thread is there exactly while the service runs, also after starts
-- that failed half-way, and then the settings are loaded.
pub record IsWhole (s : IpcService) : Type 0 where
  pub registered : s.registered ≡ s.running
  pub thread_open : s.thread_open ≡ s.running
  pub loaded : (s.running && not s.settings_loaded) ≡ false

start_service-IsWhole :
    (inits creates runs : Bool) (s : IpcService)
    → IsWhole s
    → IsWhole (start_service inits creates runs s)
unfolding start_service
start_service-IsWhole inits creates runs s h = ground arith

stop_service-IsWhole : (s : IpcService) → IsWhole s → IsWhole (stop_service s)
unfolding stop_service
stop_service-IsWhole s h = ground arith

pub serve-IsWhole : (cs : List ServiceCall) (s : IpcService) → IsWhole s → IsWhole (serve cs s)
serve-IsWhole [] s h = h
serve-IsWhole (starts inits creates runs ∷ cs) s h =
    serve-IsWhole cs _ (start_service-IsWhole inits creates runs s h)
serve-IsWhole (stops ∷ cs) s h = serve-IsWhole cs _ (stop_service-IsWhole s h)

pub data ClientCall : Type 0 where
  initializes : Bool → ClientCall
  exits : ClientCall

abbrev pub connect : List ClientCall → Connection → Connection
connect [] c = c
connect (initializes gets ∷ cs) c = connect cs (initialize gets c).0
connect (exits ∷ cs) c = connect cs (exit c)

-- The users of the connection: each initialisation that succeeds is one more, which it does where there
-- is one already; an exit is one less, and nothing without a user.
abbrev pub users : List ClientCall → ℕ → ℕ
users [] n = n
users (initializes gets ∷ cs) n = users cs (if gets || ltb 0 n then suc n else n)
users (exits ∷ cs) n = users cs (n - 1)

pub record IsCounted (n : ℕ) (c : Connection) : Type 0 where
  pub counted : c.ref_count ≡ n
  pub is_open : c.active ≡ ltb 0 n

initialize-IsCounted :
    (gets : Bool) (n : ℕ) (c : Connection)
    → n + 1 < 2 ^ 64
    → IsCounted n c
    → IsCounted (if gets || ltb 0 n then suc n else n) (initialize gets c).0
unfolding initialize
initialize-IsCounted gets n c room h = ground arith

exit-IsCounted : (n : ℕ) (c : Connection) → IsCounted n c → IsCounted (n - 1) (exit c)
unfolding exit
exit-IsCounted n c h = ground arith

-- After any calls the connection is open exactly if it has a user, and the count is the number of
-- users, as long as there are fewer calls than a `size_t` can count.
pub connect-IsCounted :
    (cs : List ClientCall) (n : ℕ) (c : Connection)
    → n + length cs < 2 ^ 64
    → IsCounted n c
    → IsCounted (users cs n) (connect cs c)
connect-IsCounted [] n c room h = h
connect-IsCounted (initializes gets ∷ cs) n c room h =
    connect-IsCounted cs _ _ (ground (arith, room))
      (initialize-IsCounted gets n c (omega (arith, room)) h)
connect-IsCounted (exits ∷ cs) n c room h =
    connect-IsCounted cs _ _ (omega (arith, room)) (exit-IsCounted n c h)
