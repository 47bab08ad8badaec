-- ===== src/Client/Connection/Installed.antt =====
-- The session that a connection which is let in installs.
use kdeconnect_nx.Prelude.{
  ℕ, suc, ◌<◌, Text, bytes, Bool, true, false, not, ◌&&◌, Option, none, some, List, [], ◌∷◌, ◌++◌,
  ◌≡◌, sym, subst, ◌∙◌, arith, eq_text_refl, All, is_some, if◌then◌else◌, lookup, insert,
  lookup-insert,
}
use kdeconnect_nx.Json.Yyjson.{Yyjson}
use kdeconnect_nx.Identity.{DeviceInfo}
use kdeconnect_nx.Storage.{load_paired_device}
use kdeconnect_nx.Client.State.{paired, not_paired, PluginHost, Client, Now, device, notify}
use kdeconnect_nx.Client.Frame.{frame, frame-send_packet, frame-notify_plugins_connected}
use kdeconnect_nx.Client.Connection.{
  Handshake, vetted, new_session, close_old, install, greet, establish, handle_new_connection,
}
use kdeconnect_nx.Client.Connection.Pinning.{vetted_identity}

-- Handles come from a counter, so the map holds no handle that is still to come.
abbrev pub HandlesBelow : {P : Type 0} → Client P → Type 0
HandlesBelow c = All (λ e. e.1 < c.next_handle) c.sessions

lookup-below :
    (m : List (Text × ℕ)) (n h : ℕ) (id : Text)
    → All (λ e. e.1 < n) m
    → lookup id m ≡ some h
    → h < n
unfolding lookup
lookup-below [] n h id below e = cc
lookup-below ((j, k) ∷ m) n h id below e = ground (arith, lookup-below m n h id below.1)

insert-below :
    (m : List (Text × ℕ)) (n : ℕ) (id : Text)
    → All (λ e. e.1 < n) m
    → All (λ e. e.1 < suc n) (insert id n m)
unfolding insert
insert-below [] n id below = omega arith
insert-below ((j, k) ∷ m) n id below = ground (arith, insert-below m n id below.1, wider m)
  where
    wider : (m : List (Text × ℕ)) → All (λ e. e.1 < n) m → All (λ e. e.1 < suc n) m
    wider [] b = tt
    wider (e ∷ m) b = (omega arith, wider m b.1)

module _ (y : Yyjson) (host : PluginHost y) (sha256_hex_upper : Text → Text) (base : Text) where
  open host use {Plugin}

  frame-greet :
      (now : Now) (identity : DeviceInfo) (b : Bool) (c : Client Plugin)
      → frame (greet y host sha256_hex_upper base now identity b c) ≡ frame c
  unfolding greet
  frame-greet now identity true c = frame-send_packet y host now identity.id _ c
  frame-greet now identity false c =
      frame-send_packet y host now identity.id _ _ ∙ frame-send_packet y host now identity.id _ c

  -- The session of a handle, if there is one, is disconnected and closed.
  abbrev pub Disconnected : Option ℕ → (ℕ → Bool) → Type 0
  Disconnected none off = Unit
  Disconnected (some h) off = off h ≡ true

  close_old-Disconnected :
      (o : Option ℕ) (d : Client Plugin)
      → Disconnected o (λ k.
        let s = (close_old y host sha256_hex_upper base o d).heap k in
        s.disconnected && not s.fd_open)
  unfolding close_old
  close_old-Disconnected none d = tt
  close_old-Disconnected (some h) d = ground arith

  close_old-HandlesBelow :
      (o : Option ℕ) (d : Client Plugin)
      → HandlesBelow d
      → HandlesBelow (close_old y host sha256_hex_upper base o d)
  unfolding close_old
  close_old-HandlesBelow none d below = below
  close_old-HandlesBelow (some h) d below = below

  abbrev pub Installed : Text → Bool → Handshake → Client Plugin → Client Plugin → Type 0
  Installed id stored t c c' =
      (device c' id ≡ some c.next_handle)
      × ((c'.heap c.next_handle).is_paired ≡ stored)
      × ((c'.heap c.next_handle).pair_state ≡ (if stored then paired else not_paired))
      × ((c'.heap c.next_handle).cert_pem ≡ t.peer_cert_pem)
      × ((c'.heap c.next_handle).disconnected ≡ false)
      × Disconnected (device c id) (λ h. (c'.heap h).disconnected && not (c'.heap h).fd_open)
      × HandlesBelow c'

  install-Installed :
      (secure : DeviceInfo) (b : Bool) (t : Handshake) (c : Client Plugin)
      → HandlesBelow c
      → Installed secure.id b t c (install y host sha256_hex_upper base secure b t c)
  unfolding install device close_old new_session
  install-Installed secure b t c below =
      let older = λ (h : ℕ). lookup-below c.sessions c.next_handle h secure.id below in
      let entry = lookup-insert secure.id secure.id c.next_handle c.sessions in
      let own = eq_text_refl secure.id in
      (
        ground (arith, entry, own),
        ground (arith, older c.next_handle),
        ground (arith, older c.next_handle),
        ground (arith, older c.next_handle),
        ground (arith, older c.next_handle),
        close_old-Disconnected (lookup secure.id c.sessions) _,
        close_old-HandlesBelow (lookup secure.id c.sessions) _
            (insert-below c.sessions c.next_handle secure.id below),
      )

  frame-establish :
      (now : Now) (identity secure : DeviceInfo) (b : Bool) (t : Handshake) (c : Client Plugin)
      → Installed identity.id b t c (install y host sha256_hex_upper base secure b t c)
      → Installed identity.id b t c
          (establish y host sha256_hex_upper base now identity b t c (some secure))
  unfolding establish device
  frame-establish now identity secure b t c done =
      let c1 = install y host sha256_hex_upper base secure b t c in
      let told = notify secure.name (bytes "Connected") (bytes "connect_" ++ secure.id) c1 in
      let c2 = if b && t.show_on_connect then told else c1 in
      let shown : Installed identity.id b t c c2 =
        elim (b && t.show_on_connect)
          as (λ z. Installed identity.id b t c (if◌then◌else◌ {A = Client Plugin} z told c1)) [
            | true ↦ done
            | false ↦ done
          ] in
      let greeted = greet y host sha256_hex_upper base now identity b c2 in
      subst (Installed identity.id b t c)
        (sym (
          frame-notify_plugins_connected y host now c.next_handle greeted
          ∙ frame-greet now identity b c2))
        shown

  -- A connection that is let in installs a new session under the device's id, whatever the other
  -- threads did during the handshake, if the map's handles are still below the counter. The session is
  -- paired exactly if the device was stored before the handshake, keeps the certificate that was
  -- presented, and is connected; a session that the map holds for the device by then, connected or not,
  -- is disconnected and its socket closed. The handles stay below the counter.
  pub handle_new_connection-Installed :
      (now : Now) (side : Bool) (identity secure : DeviceInfo) (t : Handshake)
      (meanwhile : Client Plugin → Client Plugin) (c : Client Plugin)
      → vetted y host sha256_hex_upper base side identity t c ≡ some secure
      → HandlesBelow (meanwhile c)
      → Installed identity.id
          (is_some (load_paired_device y base c.disk identity.id))
          t
          (meanwhile c)
          (handle_new_connection y host sha256_hex_upper base now side identity t meanwhile c)
  unfolding handle_new_connection
  handle_new_connection-Installed now side identity secure t meanwhile c e below =
      let named = (vetted_identity y host sha256_hex_upper base side identity secure t c e).3 in
      let b = is_some (load_paired_device y base c.disk identity.id) in
      let c1 = meanwhile c in
      rw e (
        frame-establish now identity secure b t c1 (
          subst (λ i. Installed i b t c1 (install y host sha256_hex_upper base secure b t c1)) named
            (install-Installed secure b t c1 below)))
