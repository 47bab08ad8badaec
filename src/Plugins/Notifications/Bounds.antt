-- ===== src/Plugins/Notifications/Bounds.antt =====
-- How many entries the plugin keeps, and which go.
use kdeconnect_nx.Prelude.{
  ℕ, zero, suc, ◌+◌, ◌≤◌, ◌<◌, Text, Bool, true, false, not, ◌&&◌, ◌||◌, Option, none, some, List,
  [], ◌∷◌, ◌≡◌, ◌⊎◌, refl, sym, subst, arith, if◌then◌else◌, ltb, leb, length, All, eq_text,
  eq_text_refl, is_empty, is_some, lookup, insert, erase, Bool-cases, inl, inr, bytes,
}
use kdeconnect_nx.Json.Yyjson.{Yyjson}
use kdeconnect_nx.Json.Body
use kdeconnect_nx.Packet.{NetworkPacket}
use kdeconnect_nx.Storage.{Disk}
use kdeconnect_nx.Plugins.Notifications.Posting.{Preferences, Posts}
use kdeconnect_nx.Plugins.Notifications.{
  PostedEntry, NotificationPlugin, max_posted_ids, max_app_icon_hashes, erase_at, remember_icon,
  oldest_from, erase_oldest, Verdict, skip, upgrade, fresh, remember, debounce, verdict, act,
  on_notification, on_packet_received,
}

module _ {ℓ} {V : Type ℓ} where
  length-erase : (k : Text) (m : List (Text × V)) → length (erase k m) ≤ length m
  unfolding erase
  length-erase k [] = omega arith
  length-erase k ((j, v) ∷ m) = ground (arith, length-erase k m)

  length-erase_held :
      (k : Text) (m : List (Text × V)) → is_some (lookup k m) ≡ true → length (erase k m) < length m
  unfolding erase lookup
  length-erase_held k [] h = absurd (ground (arith, h))
  length-erase_held k ((j, v) ∷ m) h = elim (Bool-cases (eq_text j k)) [
    | inl same ↦ rw same (omega (arith, length-erase k m))
    | inr other ↦ rw other (omega (arith, length-erase_held k m (ground (arith, h, other))))
  ]

  length-insert :
      (k : Text) (v : V) (m : List (Text × V))
      → length (insert k v m) ≡ (if is_some (lookup k m) then length m else suc (length m))
  unfolding insert lookup
  length-insert k v [] = refl
  length-insert k v ((j, w) ∷ m) = ground (arith, length-insert k v m)

length-erase_at {ℓ} :
    {A : Type ℓ} (i : ℕ) (m : List A) → i < length m → suc (length (erase_at i m)) ≡ length m
unfolding erase_at
length-erase_at i [] h = absurd (omega (arith, h))
length-erase_at zero (x ∷ m) h = refl
length-erase_at (suc i) (x ∷ m) h = omega (arith, length-erase_at i m (omega (arith, h)))

oldest_from_cases :
    (e f : Text × PostedEntry) (m : List (Text × PostedEntry))
    → ((f.1.when < e.1.when) × (oldest_from e (f ∷ m) ≡ oldest_from f m))
      ⊎ ((e.1.when ≤ f.1.when) × (oldest_from e (f ∷ m) ≡ oldest_from e m))
unfolding oldest_from
oldest_from_cases e f m = ground arith

-- None of the entries is older than the first one.
abbrev pub IsOldest : Text × PostedEntry → List (Text × PostedEntry) → Type 0
IsOldest e m = All (λ f. e.1.when ≤ f.1.when) m

oldest_nil : (e : Text × PostedEntry) → (oldest_from e []).1.when ≤ e.1.when
unfolding oldest_from
oldest_nil e = omega arith

oldest_from-IsOldest :
    (e : Text × PostedEntry) (m : List (Text × PostedEntry)) → IsOldest (oldest_from e m) (e ∷ m)
oldest_from-IsOldest e [] = (oldest_nil e, tt)
oldest_from-IsOldest e (f ∷ m) = elim (oldest_from_cases e f m) [
  | inl (younger, same) ↦
      let rest = oldest_from-IsOldest f m in
      subst (λ r. IsOldest r (e ∷ f ∷ m)) (sym same) (omega (arith, rest.0, younger), rest)
  | inr (older, same) ↦
      let rest = oldest_from-IsOldest e m in
      subst (λ r. IsOldest r (e ∷ f ∷ m)) (sym same)
        (rest.0, (omega (arith, rest.0, older), rest.1))
]

held_nil : (e : Text × PostedEntry) → is_some (lookup (oldest_from e []).0 (e ∷ [])) ≡ true
unfolding oldest_from lookup
held_nil e = rw (eq_text_refl e.0) refl

lookup_further :
    (k : Text) (e : Text × PostedEntry) (m : List (Text × PostedEntry))
    → is_some (lookup k m) ≡ true
    → is_some (lookup k (e ∷ m)) ≡ true
unfolding lookup
lookup_further k e m h = ground (arith, h)

lookup_skip :
    (k : Text) (e f : Text × PostedEntry) (m : List (Text × PostedEntry))
    → is_some (lookup k (e ∷ m)) ≡ true
    → is_some (lookup k (e ∷ f ∷ m)) ≡ true
unfolding lookup
lookup_skip k e f m h = ground (arith, h)

oldest_from-held :
    (e : Text × PostedEntry) (m : List (Text × PostedEntry))
    → is_some (lookup (oldest_from e m).0 (e ∷ m)) ≡ true
oldest_from-held e [] = held_nil e
oldest_from-held e (f ∷ m) = elim (oldest_from_cases e f m) [
  | inl (younger, same) ↦
      subst (λ r. is_some (lookup r.0 (e ∷ f ∷ m)) ≡ true) (sym same)
        (lookup_further (oldest_from f m).0 e (f ∷ m) (oldest_from-held f m))
  | inr (older, same) ↦
      subst (λ r. is_some (lookup r.0 (e ∷ f ∷ m)) ≡ true) (sym same)
        (lookup_skip (oldest_from e m).0 e f m (oldest_from-held e m))
]

-- Where room is made, one entry goes of which none is older.
pub erase_oldest_lem :
    (e : Text × PostedEntry) (m : List (Text × PostedEntry))
    → (gone : Text × PostedEntry) × (erase_oldest (e ∷ m) ≡ erase gone.0 (e ∷ m))
      × (is_some (lookup gone.0 (e ∷ m)) ≡ true)
      × IsOldest gone (e ∷ m)
unfolding erase_oldest
erase_oldest_lem e m = (oldest_from e m, refl, oldest_from-held e m, oldest_from-IsOldest e m)

length-erase_oldest :
    (m : List (Text × PostedEntry)) → 0 < length m → length (erase_oldest m) < length m
unfolding erase_oldest
length-erase_oldest [] h = absurd (omega (arith, h))
length-erase_oldest (e ∷ m) h = length-erase_held (oldest_from e m).0 (e ∷ m) (oldest_from-held e m)

-- The entries that are kept do not exceed their limits.
pub record IsBounded (p : NotificationPlugin) : Type 0 where
  pub hashes : length p.app_icon_hash ≤ max_app_icon_hashes
  pub posted : length p.posted_ids ≤ max_posted_ids

remember_icon-bounded :
    (begin : ℕ) (app hash : Text) (m : List (Text × Text))
    → begin < max_app_icon_hashes
    → length m ≤ max_app_icon_hashes
    → length (remember_icon begin app hash m).1 ≤ max_app_icon_hashes
unfolding remember_icon
remember_icon-bounded begin app hash m first h = elim (Bool-cases (is_empty hash)) [
  | inl none_sent ↦ rw none_sent h
  | inr sent ↦
      elim (Bool-cases (leb max_app_icon_hashes (length m) && not (is_some (lookup app m)))) [
        | inl full ↦
            let gone = length-erase_at begin m (ground (arith, first, full)) in
            rw (sent, full) (ground (arith, h, gone, length-insert app hash (erase_at begin m)))
        | inr room ↦ rw (sent, room) (ground (arith, h, room, length-insert app hash m))
      ]
]

IsKept : Verdict → Type 0
IsKept skip = Unit
IsKept (upgrade m) = length m ≤ max_posted_ids
IsKept (fresh m) = length m ≤ max_posted_ids

remember-IsKept :
    (id : Text) (icon : Bool) (time : Text) (now : ℕ) (m : List (Text × PostedEntry))
    → length m ≤ max_posted_ids
    → IsKept (remember id icon time now m)
unfolding remember IsKept
remember-IsKept id icon time now m h =
    let entry : PostedEntry = record { has_icon = icon; time = time; when = now } in
    elim (Bool-cases (leb max_posted_ids (length m))) [
      | inl full ↦
          let gone = length-erase_oldest m (ground (arith, full)) in
          rw full (ground (arith, h, gone, length-insert id entry (erase_oldest m)))
      | inr room ↦ rw room (ground (arith, room, length-insert id entry m))
    ]

length-insert_held :
    (id : Text) (p e : PostedEntry) (m : List (Text × PostedEntry))
    → lookup id m ≡ some p
    → length (insert id e m) ≡ length m
length-insert_held id p e m h = ground (arith, h, length-insert id e m)

debounce-IsKept :
    (id : Text) (icon : Bool) (time : Text) (now : ℕ) (m : List (Text × PostedEntry))
    → length m ≤ max_posted_ids
    → (o : Option PostedEntry) → lookup id m ≡ o
    → IsKept (debounce id icon time now o m)
unfolding debounce IsKept
debounce-IsKept id icon time now m h none e = remember-IsKept id icon time now m h
debounce-IsKept id icon time now m h (some p) e =
    let kept = length-insert_held id p (record p { has_icon = true }) m e in
    elim (Bool-cases (eq_text p.time time && ltb now (p.when + 2000000000))) [
      | inl again ↦ elim (Bool-cases (p.has_icon || not icon)) [
        | inl weaker ↦ rw (again, weaker) tt
        | inr stronger ↦ rw (again, stronger) (omega (arith, h, kept))
      ]
      | inr other ↦ rw other (remember-IsKept id icon time now m h)
    ]

module _ (y : Yyjson) where
  verdict-IsKept :
      (id icon_hash : Text) (np : NetworkPacket y) (now : ℕ) (p : NotificationPlugin)
      → length p.posted_ids ≤ max_posted_ids
      → IsKept (verdict y id icon_hash np now p)
  unfolding verdict IsKept
  verdict-IsKept id icon_hash np now p h = elim (Bool-cases (is_empty id)) [
    | inl unnamed ↦ rw unnamed h
    | inr named ↦ rw named (
        debounce-IsKept id (not (is_empty icon_hash)) (Body.value_str y np.body (bytes "time") [])
          now p.posted_ids h (lookup id p.posted_ids) refl)
  ]

  act-IsBounded :
      (s : Preferences) (id icon_hash : Text) (np : NetworkPacket y) (v : Verdict)
      (p : NotificationPlugin) (w : Posts)
      → IsKept v
      → IsBounded p
      → IsBounded (act y s id icon_hash np v p w).0
  unfolding act IsKept
  act-IsBounded s id icon_hash np skip p w k h = h
  act-IsBounded s id icon_hash np (upgrade m) p w k h = record { hashes = h.hashes; posted = k }
  act-IsBounded s id icon_hash np (fresh m) p w k h = record { hashes = h.hashes; posted = k }

  on_notification-IsBounded :
      (write_app_icon : Text → Disk → Disk) (s : Preferences) (begin now : ℕ) (np : NetworkPacket y)
      (p : NotificationPlugin) (w : Posts)
      → begin < max_app_icon_hashes
      → IsBounded p
      → IsBounded (on_notification y write_app_icon s begin now np p w).0
  unfolding on_notification
  on_notification-IsBounded write_app_icon s begin now np p w first h =
      let app = Body.value_str y np.body (bytes "appName") (bytes "Unknown") in
      let id = Body.value_str y np.body (bytes "id") [] in
      let hash = Body.value_str y np.body (bytes "payloadHash") [] in
      let icon = remember_icon begin app hash p.app_icon_hash in
      let p1 = record p { app_icon_hash = icon.1 } in
      act-IsBounded s id icon.0 np (verdict y id icon.0 np now p1) p1 _
        (verdict-IsKept id icon.0 np now p1 h.posted)
        (record {
          hashes = remember_icon-bounded begin app hash p.app_icon_hash first h.hashes;
          posted = h.posted;
        })

  -- Whatever packet arrives, at most ten posted ids and a hundred icon hashes are kept. The place of the
  -- entry that is first in the map of the hashes is one of the hundred.
  pub on_packet_received-IsBounded :
      (write_app_icon : Text → Disk → Disk) (s : Preferences) (begin now : ℕ) (np : NetworkPacket y)
      (p : NotificationPlugin) (w : Posts)
      → begin < max_app_icon_hashes
      → IsBounded p
      → IsBounded (on_packet_received y write_app_icon s begin now np p w).0.0
  unfolding on_packet_received
  on_packet_received-IsBounded write_app_icon s begin now np p w first h =
      let id = Body.value_str y np.body (bytes "id") [] in
      elim (Bool-cases (not (eq_text np.type (bytes "kdeconnect.notification")))) [
        | inl other ↦ rw other h
        | inr ours ↦ elim (Bool-cases (Body.value_bool y np.body (bytes "isCancel") false)) [
          | inl cancel ↦
              rw (ours, cancel)
                (record {
                  hashes = h.hashes;
                  posted = omega (arith, h.posted, length-erase id p.posted_ids);
                })
          | inr posts ↦
              rw (ours, posts) (on_notification-IsBounded write_app_icon s begin now np p w first h)
        ]
      ]
