-- ===== src/Plugins/Notifications/Repeats.antt =====
-- A packet that arrives twice.
use kdeconnect_nx.Prelude.{
  ℕ, ◌+◌, ◌<◌, Text, Bool, true, false, not, ◌&&◌, none, some, List, [], ◌∷◌, ◌≡◌, refl, ap, ◌∙◌,
  arith, if◌then◌else◌, ltb, leb, length, eq_text, eq_text_refl, is_empty, is_some, lookup, insert,
  lookup-insert, Bool-cases, inl, inr, bytes,
}
use kdeconnect_nx.Json.Yyjson.{Yyjson}
use kdeconnect_nx.Json.Body
use kdeconnect_nx.Packet.{NetworkPacket}
use kdeconnect_nx.Storage.{Disk}
use kdeconnect_nx.Plugins.Notifications.Posting.{Preferences, Posts}
use kdeconnect_nx.Plugins.Notifications.{
  PostedEntry, NotificationPlugin, max_posted_ids, max_app_icon_hashes, known_icon, erase_at,
  remember_icon, erase_oldest, skip, fresh, remember, debounce, verdict, act, fetch_icon,
  on_notification, on_packet_received,
}

module _ {V : Type 0} where
  insert-insert :
      (k : Text) (v : V) (m : List (Text × V)) → insert k v (insert k v m) ≡ insert k v m
  unfolding insert
  insert-insert k v [] = rw (eq_text_refl k) refl
  insert-insert k v ((j, w) ∷ m) = ground (arith, insert-insert k v m)

  lookup_inserted : (k : Text) (v : V) (m : List (Text × V)) → lookup k (insert k v m) ≡ some v
  lookup_inserted k v m = lookup-insert k k v m ∙ rw (eq_text_refl k) refl

remember_icon_none :
    (begin : ℕ) (app hash : Text) (m : List (Text × Text))
    → is_empty hash ≡ true
    → remember_icon begin app hash m ≡ (known_icon (lookup app m), m)
unfolding remember_icon
remember_icon_none begin app hash m none_sent = rw none_sent refl

remember_icon_sent :
    (begin : ℕ) (app hash : Text) (m : List (Text × Text))
    → is_empty hash ≡ false
    → (kept : List (Text × Text)) × (remember_icon begin app hash m ≡ (hash, insert app hash kept))
unfolding remember_icon
remember_icon_sent begin app hash m sent =
    let full = leb max_app_icon_hashes (length m) && not (is_some (lookup app m)) in
    (if full then erase_at begin m else m, rw sent refl)

remember_icon_held :
    (begin : ℕ) (app hash h : Text) (m : List (Text × Text))
    → is_empty hash ≡ false
    → lookup app m ≡ some h
    → remember_icon begin app hash m ≡ (hash, insert app hash m)
unfolding remember_icon
remember_icon_held begin app hash h m sent held = ground (arith, sent, held)

-- The icon that was remembered once is remembered again.
remember_icon-again :
    (begin begin' : ℕ) (app hash : Text) (m : List (Text × Text))
    → remember_icon begin' app hash (remember_icon begin app hash m).1
      ≡ remember_icon begin app hash m
remember_icon-again begin begin' app hash m = elim (Bool-cases (is_empty hash)) [
  | inl none_sent ↦
      rw (remember_icon_none begin app hash m none_sent)
        (remember_icon_none begin' app hash m none_sent)
  | inr sent ↦
      let once = remember_icon_sent begin app hash m sent in
      rw once.1 (
        remember_icon_held begin' app hash hash (insert app hash once.0) sent
          (lookup_inserted app hash once.0)
        ∙ ap (λ l. (hash, l)) (insert-insert app hash once.0))
]

-- An entry that was just written stops the same packet within two seconds.
debounce-again :
    (id : Text) (icon : Bool) (time : Text) (now now' : ℕ) (m : List (Text × PostedEntry))
    → now' < now + 2000000000
    → debounce id icon time now' (some (record { has_icon = icon; time = time; when = now })) m
      ≡ skip
unfolding debounce
debounce-again id icon time now now' m soon =
    let in_time : ltb now' (now + 2000000000) ≡ true = ground (arith, soon) in
    elim (Bool-cases icon) [
      | inl shown ↦ rw (eq_text_refl time, in_time, shown) refl
      | inr bare ↦ rw (eq_text_refl time, in_time, bare) refl
    ]

remember-held :
    (id : Text) (icon : Bool) (time : Text) (now : ℕ) (m : List (Text × PostedEntry))
    → (m' : List (Text × PostedEntry)) × (remember id icon time now m ≡ fresh m')
      × (lookup id m' ≡ some (record { has_icon = icon; time = time; when = now }))
unfolding remember
remember-held id icon time now m =
    let kept = if leb max_posted_ids (length m) then erase_oldest m else m in
    let e : PostedEntry = record { has_icon = icon; time = time; when = now } in
    (insert id e kept, refl, lookup_inserted id e kept)

module _ (y : Yyjson) (write_app_icon : Text → Disk → Disk) (s : Preferences) where
  -- The packet says that a notification was posted, and names it.
  pub record IsPosting (np : NetworkPacket y) : Type 0 where
    pub ours : eq_text np.type (bytes "kdeconnect.notification") ≡ true
    pub posts : Body.value_bool y np.body (bytes "isCancel") false ≡ false
    pub named : is_empty (Body.value_str y np.body (bytes "id") []) ≡ false

  posting :
      (begin now : ℕ) (np : NetworkPacket y) (p : NotificationPlugin) (w : Posts)
      → IsPosting np
      → on_packet_received y write_app_icon s begin now np p w
        ≡ (on_notification y write_app_icon s begin now np p w, true)
  unfolding on_packet_received
  posting begin now np p w h = rw (h.ours, h.posts) refl

  -- The plugin after a packet whose id it did not have.
  first_time :
      (begin now : ℕ) (np : NetworkPacket y) (p : NotificationPlugin) (w : Posts)
      → IsPosting np
      → lookup (Body.value_str y np.body (bytes "id") []) p.posted_ids ≡ none
      → let app = Body.value_str y np.body (bytes "appName") (bytes "Unknown") in
        let id = Body.value_str y np.body (bytes "id") [] in
        let hash = Body.value_str y np.body (bytes "payloadHash") [] in
        let icon = remember_icon begin app hash p.app_icon_hash in
        (m : List (Text × PostedEntry)) × ((on_notification y write_app_icon s begin now np p w).0
          ≡ record { app_icon_hash = icon.1; posted_ids = m })
        × (lookup id m
            ≡ some (record {
              has_icon = not (is_empty icon.0);
              time = Body.value_str y np.body (bytes "time") [];
              when = now;
            }))
  unfolding on_notification verdict debounce act
  first_time begin now np p w h unknown =
      let app = Body.value_str y np.body (bytes "appName") (bytes "Unknown") in
      let id = Body.value_str y np.body (bytes "id") [] in
      let hash = Body.value_str y np.body (bytes "payloadHash") [] in
      let icon = remember_icon begin app hash p.app_icon_hash in
      let held =
        remember-held id (not (is_empty icon.0)) (Body.value_str y np.body (bytes "time") []) now
          p.posted_ids in
      (held.0, rw (h.named, unknown, held.1) refl, held.2)

  -- The plugin at a packet that it has just posted.
  second_time :
      (begin now now' : ℕ) (np : NetworkPacket y) (q : NotificationPlugin) (w : Posts)
      → IsPosting np
      → let app = Body.value_str y np.body (bytes "appName") (bytes "Unknown") in
        let id = Body.value_str y np.body (bytes "id") [] in
        let hash = Body.value_str y np.body (bytes "payloadHash") [] in
        (icon : Text)
        → remember_icon begin app hash q.app_icon_hash ≡ (icon, q.app_icon_hash)
        → lookup id q.posted_ids
          ≡ some (record {
            has_icon = not (is_empty icon);
            time = Body.value_str y np.body (bytes "time") [];
            when = now;
          })
        → now' < now + 2000000000
        → on_notification y write_app_icon s begin now' np q w
          ≡ (q, fetch_icon y write_app_icon icon np w)
  unfolding on_notification verdict act
  second_time begin now now' np q w h icon known held soon =
      let id = Body.value_str y np.body (bytes "id") [] in
      let time = Body.value_str y np.body (bytes "time") [] in
      rw
        (
          known,
          h.named,
          held,
          debounce-again id (not (is_empty icon)) time now now' q.posted_ids soon,
        )
        refl

  -- A notification that the plugin has not posted, sent again within two seconds, changes nothing of
  -- the plugin's state and posts nothing: at most its icon is fetched again.
  pub on_packet_received-again :
      (begin begin' now now' : ℕ) (np : NetworkPacket y) (p : NotificationPlugin) (w w' : Posts)
      → IsPosting np
      → lookup (Body.value_str y np.body (bytes "id") []) p.posted_ids ≡ none
      → now' < now + 2000000000
      → let q = (on_packet_received y write_app_icon s begin now np p w).0.0 in
        (icon : Text) × (on_packet_received y write_app_icon s begin' now' np q w'
          ≡ ((q, fetch_icon y write_app_icon icon np w'), true))
  on_packet_received-again begin begin' now now' np p w w' h unknown soon =
      let app = Body.value_str y np.body (bytes "appName") (bytes "Unknown") in
      let hash = Body.value_str y np.body (bytes "payloadHash") [] in
      let icon = remember_icon begin app hash p.app_icon_hash in
      let once = first_time begin now np p w h unknown in
      let q : NotificationPlugin = record { app_icon_hash = icon.1; posted_ids = once.0 } in
      (
        icon.0,
        rw (posting begin now np p w h, once.1)
            (posting begin' now' np q w' h
              ∙ ap (λ r. (r, true))
                  (second_time begin' now now' np q w' h icon.0
                    (remember_icon-again begin begin' app hash p.app_icon_hash) once.2 soon)),
      )
