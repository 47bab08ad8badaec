-- ===== src/Client/Session.antt =====
-- `io_loop` of net/kdeconnect_client.cpp: the thread of one session, which alone uses the TLS context.
-- One step is one turn of the loop; what the other threads did to the client since the last turn comes
-- first. The sends of a turn are answered one by one. `bad_alloc` is not modelled.
pub mod Order
pub mod Ending
use kdeconnect_nx.Prelude.{
  ℕ, suc, Text, Bool, ◌≡◌, ◌⊎◌, inl, inr, refl, true, false, not, ◌||◌, Option, none, some, List,
  [], ◌∷◌, ◌++◌, if◌then◌else◌,
}
use kdeconnect_nx.Json.Yyjson.{Yyjson}
use kdeconnect_nx.Client.State.{PluginHost, DeviceSession, Client, Now, update}
use kdeconnect_nx.Client.Dispatch.{handle_packet}

-- What `select` answers: EINTR, another error, nothing within 5 ms, or data, with what `read_line_tls`
-- then returns, or that it has not returned: then the thread waits in it, and there is no other turn.
pub data Select : Type 0 where
  interrupted broken idle : Select
  readable : Option Text → Select
  stuck : Select

-- How a turn ends.
pub data Next : Type 0 where
  goes_on ends waits : Next

abbrev pub by_next : {A : Type 0} → Next → A → A → A → A
by_next goes_on more end wait = more
by_next ends more end wait = end
by_next waits more end wait = wait

pub Next-cases : (n : Next) → (n ≡ goes_on) ⊎ ((n ≡ ends) ⊎ (n ≡ waits))
Next-cases goes_on = inl refl
Next-cases ends = inr (inl refl)
Next-cases waits = inr (inr refl)

pub record Turn (P : Type 0) : Type 0 where
  pub now : Now
  pub elsewhere : Client P → Client P
  pub running : Bool
  pub sends : ℕ → Bool
  pub select : Select

-- `drain_sends`, on the queue: the calls of `send_all_tls` with their results, the queue that is left,
-- and the result.
unfoldable pub drain_sends : Bool → (ℕ → Bool) → List Text → List (Text × Bool) × List Text × Bool
drain_sends disconnected sends [] = ([], [], not disconnected)
drain_sends disconnected sends (payload ∷ queue) =
    let (calls, left, ok) = drain_sends disconnected (λ n. sends (suc n)) queue in
    if disconnected
    then ([], payload ∷ queue, false)
    else if sends 0
    then ((payload, true) ∷ calls, left, ok)
    else ((payload, false) ∷ [], queue, false)

module _ {P : Type 0} where
  abbrev pub set_queue : List Text → DeviceSession P → DeviceSession P
  set_queue q s = record s { send_queue = q }

  -- The end of `io_loop`.
  unfoldable pub close_session : ℕ → Client P → Client P
  close_session h c = update h (λ s. record s { disconnected = true; fd_open = false }) c

module _ (y : Yyjson) (host : PluginHost y) (sha256_hex_upper : Text → Text) (base : Text) where
  open host use {Plugin}

  -- The client, and how the loop goes on.
  unfoldable pub on_select : Now → ℕ → Select → Client Plugin → Client Plugin × Next
  on_select now h interrupted c = (c, goes_on)
  on_select now h broken c = (c, ends)
  on_select now h idle c = (c, goes_on)
  on_select now h (readable none) c = (c, ends)
  on_select now h stuck c = (c, waits)
  on_select now h (readable (some line)) c =
      (handle_packet y host sha256_hex_upper base now h line c, goes_on)

  unfoldable pub io_step :
      ℕ → Turn Plugin → Client Plugin → Client Plugin × List (Text × Bool) × Next
  io_step h t c =
      let c0 = t.elsewhere c in
      let s = c0.heap h in
      let (calls, left, ok) = drain_sends s.disconnected t.sends s.send_queue in
      let c1 = update h (set_queue left) c0 in
      let (c2, on) = on_select t.now h t.select c1 in
      if not t.running || s.disconnected
      then (c0, [], ends)
      else if not ok || not s.fd_open
      then (c1, calls, ends)
      else (c2, calls, on)

  -- The turns of the loop: the client, the calls of `send_all_tls`, and whether the loop has ended.
  unfoldable pub io_loop :
      ℕ → List (Turn Plugin) → Client Plugin → Client Plugin × List (Text × Bool) × Bool
  io_loop h [] c = (c, [], false)
  io_loop h (t ∷ ts) c =
      let (c1, calls, on) = io_step h t c in
      let (c2, more, ended) = io_loop h ts c1 in
      by_next on (c2, calls ++ more, ended) (close_session h c1, calls, true) (c1, calls, false)
