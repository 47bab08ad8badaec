-- ===== src/Plugins/Share/Paths.antt =====
-- Where a file that another device shares is saved.
use kdeconnect_nx.Prelude.{
  ℕ, Bool, Text, bytes, true, false, ◌||◌, [], ◌∷◌, ◌++◌, ◌≡◌, ◌⊎◌, refl, sym, ap, subst, ◌∙◌,
  append_assoc, ◌==◌, All, is_empty, Bool-cases, inl, inr,
}
use kdeconnect_nx.Json.Yyjson.{Yyjson}
use kdeconnect_nx.Json.Body
use kdeconnect_nx.Packet.{NetworkPacket}
use kdeconnect_nx.Plugins.Share.{
  SharePlugin, after_last, saved_path, receive_file, on_packet_received,
}

-- A byte that separates no folders.
abbrev pub IsInName : ℕ → Type 0
IsInName c = (c == b'/' || c == b'\\') ≡ false

-- Nothing, or a text that ends in a separator.
abbrev pub IsFolder : Text → Type 0
IsFolder t =
    (t ≡ []) ⊎ ((u : Text) × (c : ℕ) × (t ≡ u ++ c ∷ []) × ((c == b'/' || c == b'\\') ≡ true))

after_last_none : (found t : Text) → All IsInName t → after_last found t ≡ found
unfolding after_last
after_last_none found [] h = refl
after_last_none found (c ∷ t) h = rw h.0 (after_last_none found t h.1)

-- The last separator, if there is one.
pub split_last :
    (t : Text)
    → All IsInName t
      ⊎ ((u : Text) × (c : ℕ) × (v : Text) × (t ≡ u ++ c ∷ v)
          × ((c == b'/' || c == b'\\') ≡ true)
          × All IsInName v)
split_last [] = inl tt
split_last (c ∷ t) = elim (split_last t) [
  | inl none_there ↦ elim (Bool-cases (c == b'/' || c == b'\\')) [
    | inl separates ↦ inr ([], c, t, refl, separates, none_there)
    | inr plain ↦ inl (plain, none_there)
  ]
  | inr (u, d, v, e, separates, plain) ↦ inr (c ∷ u, d, v, ap (◌∷◌ c) e, separates, plain)
]

after_last_some :
    (found u : Text) (c : ℕ) (v : Text)
    → (c == b'/' || c == b'\\') ≡ true
    → All IsInName v
    → after_last found (u ++ c ∷ v) ≡ v
unfolding after_last
after_last_some found [] c v separates plain = rw separates (after_last_none v v plain)
after_last_some found (d ∷ u) c v separates plain = elim (Bool-cases (d == b'/' || d == b'\\')) [
  | inl other ↦ rw other (after_last_some (u ++ c ∷ v) u c v separates plain)
  | inr skipped ↦ rw skipped (after_last_some found u c v separates plain)
]

after_last-IsInName : (t : Text) → All IsInName (after_last t t)
after_last-IsInName t = elim (split_last t) [
  | inl plain ↦ subst (All IsInName) (sym (after_last_none t t plain)) plain
  | inr (u, c, v, e, separates, plain) ↦
      subst (All IsInName)
        (sym (ap (λ s. after_last s s) e ∙ after_last_some (u ++ c ∷ v) u c v separates plain))
        plain
]

-- The name of a file that has none.
default-IsInName : All IsInName (bytes "received_file") × (is_empty (bytes "received_file") ≡ false)
unfolding bytes
default-IsInName = (
  (
    refl,
    (
      refl,
      (refl, (refl, (refl, (refl, (refl, (refl, (refl, (refl, (refl, (refl, (refl, tt))))))))))),
    ),
  ),
  refl,
)

-- Whatever the name of the file, it is saved in the root of the card: behind the first `/` of the path
-- is a name, not empty and with no separator.
pub saved_path-IsInName :
    (filename : Text)
    → (name : Text) × (saved_path filename ≡ b'/' ∷ name)
      × All IsInName name
      × (is_empty name ≡ false)
unfolding saved_path
saved_path-IsInName filename =
    let base = after_last filename filename in
    elim (Bool-cases (is_empty base)) [
      | inl nothing ↦
          (bytes "received_file", rw nothing refl, default-IsInName.0, default-IsInName.1)
      | inr something ↦ (base, rw something refl, after_last-IsInName filename, something)
    ]

-- A file in any folder is saved under its own name, and so is one without a folder.
pub saved_path_lem :
    (folder name : Text)
    → IsFolder folder
    → All IsInName name
    → is_empty name ≡ false
    → saved_path (folder ++ name) ≡ b'/' ∷ name
unfolding saved_path
saved_path_lem folder name (inl none_there) plain something =
    rw (none_there, after_last_none name name plain, something) refl
saved_path_lem folder name (inr (u, c, e, separates)) plain something =
    let whole : folder ++ name ≡ u ++ c ∷ name =
      ap (λ t. t ++ name) e ∙ append_assoc u (c ∷ []) name in
    let found : after_last (folder ++ name) (folder ++ name) ≡ name =
      ap (λ t. after_last t t) whole ∙ after_last_some (u ++ c ∷ name) u c name separates plain in
    rw (found, something) refl

-- A path in the root of the card: one slash, and a name behind it.
abbrev pub IsInRoot : Text → Type 0
IsInRoot path = (name : Text) × (path ≡ b'/' ∷ name) × All IsInName name × (is_empty name ≡ false)

module _ (y : Yyjson) where
  -- What a packet makes of the share plugin depends on `download_payload` at paths in the root of the
  -- card only: two ways to download that agree on these paths give the same state, notifications and
  -- result, whatever the packet and the name of the file that it gives.
  pub on_packet_received-InRoot :
      (download_payload other : Text → Bool) (device_name : Text) (np : NetworkPacket y)
      (p : SharePlugin)
      → ((path : Text) → IsInRoot path → download_payload path ≡ other path)
      → on_packet_received y download_payload device_name np p
        ≡ on_packet_received y other device_name np p
  unfolding on_packet_received receive_file
  on_packet_received-InRoot download_payload other device_name np p agree =
      let filename = Body.get_str y np.body (bytes "filename") in
      rw (agree (saved_path filename) (saved_path-IsInName filename)) refl
