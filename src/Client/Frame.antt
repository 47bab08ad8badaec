-- ===== src/Client/Frame.antt =====
-- What sending leaves alone: everything but the queues and the plugins of the sessions.
use mathlib.Core.Path.{fun_ext}
use kdeconnect_nx.Prelude.{
  ℕ, Text, Bool, true, false, Option, none, some, List, [], ◌∷◌, ◌≡◌, refl, ap, ◌∙◌, arith,
  if◌then◌else◌, ◌==◌, ◌⊎◌, inl, inr, Bool-cases,
}
use kdeconnect_nx.Json.Yyjson.{Yyjson}
use kdeconnect_nx.Packet.{NetworkPacket, serialize}
use kdeconnect_nx.Client.State.{PluginHost, DeviceSession, Client, Now, device, update}
use kdeconnect_nx.Client.Send.{
  send_packet, send_to, push_line, send_all, connect_plugins, notify_plugins_connected,
}

module _ {P : Type 0} where
  abbrev pub strip : DeviceSession P → DeviceSession P
  strip s = record s { send_queue = []; plugins = [] }

  -- The client with its queues and plugins left out.
  abbrev pub frame : Client P → Client P
  frame c = record c { heap = λ k. strip (c.heap k) }

  -- An update of queue or plugins only.
  pub frame-update :
      (h : ℕ) (f : DeviceSession P → DeviceSession P) (c : Client P)
      → strip (f (c.heap h)) ≡ strip (c.heap h)
      → frame (update h f c) ≡ frame c
  frame-update h f c e = ap (λ g. record c { heap = g }) (fun_ext (λ k. same k))
    where
      same : (k : ℕ) → strip (if k == h then f (c.heap h) else c.heap k) ≡ strip (c.heap k)
      same k = ground (arith, e)

module _ (y : Yyjson) (host : PluginHost y) where
  open host use {Plugin}

  frame-send_to :
      (o : Option ℕ) (now : Now) (p : NetworkPacket y) (c : Client Plugin)
      → frame (send_to y host o now p c).0 ≡ frame c
  unfolding send_to push_line
  frame-send_to none now p c = refl
  frame-send_to (some h) now p c =
      let sent = update h (push_line y host (serialize y now.milliseconds p)) c in
      elim (c.heap h).disconnected
        as (λ b.
          frame (if◌then◌else◌ {A = Client Plugin × Bool} b (c, false) (sent, true)).0 ≡ frame c) [
            | true ↦ refl
            | false ↦ frame-update h (push_line y host (serialize y now.milliseconds p)) c refl
          ]

  -- Either nothing is sent, or the session that the map holds gets a line.
  pub send_to_cases :
      (o : Option ℕ) (now : Now) (p : NetworkPacket y) (c : Client Plugin)
      → (send_to y host o now p c ≡ (c, false))
        ⊎ ((h : ℕ) × (o ≡ some h)
            × ((c.heap h).disconnected ≡ false)
            × (send_to y host o now p c
                ≡ (update h (push_line y host (serialize y now.milliseconds p)) c, true)))
  unfolding send_to
  send_to_cases none now p c = inl refl
  send_to_cases (some h) now p c = elim (Bool-cases (c.heap h).disconnected) [
    | inl off ↦ inl (rw off)
    | inr on ↦ inr (h, refl, on, rw on)
  ]

  pub frame-send_packet :
      (now : Now) (id : Text) (p : NetworkPacket y) (c : Client Plugin)
      → frame (send_packet y host now id p c).0 ≡ frame c
  unfolding send_packet
  frame-send_packet now id p c = frame-send_to (device c id) now p c

  pub frame-send_all :
      (now : Now) (id : Text) (ps : List (NetworkPacket y)) (c : Client Plugin)
      → frame (send_all y host now id ps c) ≡ frame c
  unfolding send_all
  frame-send_all now id [] c = refl
  frame-send_all now id (p ∷ ps) c =
      frame-send_all now id ps (send_packet y host now id p c).0 ∙ frame-send_packet now id p c

  frame-connect_plugins :
      (now : Now) (id : Text) (b : Bool) (ps : List Plugin) (c : Client Plugin)
      → frame (connect_plugins y host now id b ps c).0 ≡ frame c
  unfolding connect_plugins
  frame-connect_plugins now id b [] c = refl
  frame-connect_plugins now id b (p ∷ ps) c =
      frame-connect_plugins now id b ps (send_all y host now id (host.on_connected b p).1 c)
      ∙ frame-send_all now id (host.on_connected b p).1 c

  pub frame-notify_plugins_connected :
      (now : Now) (h : ℕ) (c : Client Plugin)
      → frame (notify_plugins_connected y host now h c) ≡ frame c
  unfolding notify_plugins_connected
  frame-notify_plugins_connected now h c =
      let s = c.heap h in
      let done = connect_plugins y host now s.info.id s.is_paired s.plugins c in
      frame-update h (λ t. record t { plugins = done.1 }) done.0 refl
      ∙ frame-connect_plugins now s.info.id s.is_paired s.plugins c
