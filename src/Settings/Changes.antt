-- ===== src/Settings/Changes.antt =====
-- What a new process finds after a setting was set.
use kdeconnect_nx.Prelude.{
  ℕ, ◌<◌, Text, Bool, true, some, ◌≡◌, refl, ◌∙◌, if◌then◌else◌, ◌==◌, length, Bool-cases, inl, inr,
}
use kdeconnect_nx.Prelude.Int.{ℤ, IsInt32}
use kdeconnect_nx.Json.Yyjson.{Yyjson}
use kdeconnect_nx.Json.Written.{Writes}
use kdeconnect_nx.Storage.{Disk}
use kdeconnect_nx.Settings.{
  bool_settings, int_settings, get, Settings, get_bool_key, get_int_key, no_settings, assign,
  set_bool_key, set_int_key, load, save, settings_body,
}
use kdeconnect_nx.Settings.Durable.{bools-load, ints-load}

-- A call of one of the two setters.
pub data Change : Type 0 where
  to_flag : ℕ → Bool → Change
  to_number : ℕ → ℤ → Change

-- The settings after a change, as a map.
abbrev pub flag_after : Change → ℕ → Settings → Bool
flag_after (to_flag j v) k s = if k == j then v else get_bool_key k s
flag_after (to_number j n) k s = get_bool_key k s

abbrev pub number_after : Change → ℕ → Settings → ℤ
number_after (to_flag j v) i s = get_int_key i s
number_after (to_number j n) i s = if i == j then n else get_int_key i s

module _ (y : Yyjson) (path : Text) where
  pub get_bool_key-assign :
      (s : Settings) (d : Disk) (j k : ℕ) (v : Bool)
      → get_bool_key k (set_bool_key y path j v s d).0 ≡ (if k == j then v else get_bool_key k s)
  unfolding set_bool_key get_bool_key get assign
  get_bool_key-assign s d j k v = elim (Bool-cases (k == j)) [
    | inl same ↦ rw same refl
    | inr other ↦ rw other refl
  ]

  pub get_int_key-assign :
      (s : Settings) (d : Disk) (j k : ℕ) (v : ℤ)
      → get_int_key k (set_int_key y path j v s d).0 ≡ (if k == j then v else get_int_key k s)
  unfolding set_int_key get_int_key get assign
  get_int_key-assign s d j k v = elim (Bool-cases (k == j)) [
    | inl same ↦ rw same refl
    | inr other ↦ rw other refl
  ]

  -- A flag leaves the integers alone, and an integer the flags.
  pub get_int_key-flag :
      (s : Settings) (d : Disk) (j k : ℕ) (v : Bool)
      → get_int_key k (set_bool_key y path j v s d).0 ≡ get_int_key k s
  unfolding set_bool_key get_int_key
  get_int_key-flag s d j k v = refl

  pub get_bool_key-number :
      (s : Settings) (d : Disk) (j k : ℕ) (n : ℤ)
      → get_bool_key k (set_int_key y path j n s d).0 ≡ get_bool_key k s
  unfolding set_int_key get_bool_key
  get_bool_key-number s d j k n = refl

  abbrev pub set_key : Change → Settings → Disk → Settings × Disk
  set_key (to_flag j v) s d = set_bool_key y path j v s d
  set_key (to_number j n) s d = set_int_key y path j n s d

  -- A change is kept, and the file is that of the changed settings.
  set_key-saves :
      (change : Change) (s : Settings) (d : Disk)
      → (set_key change s d).1 ≡ save y path (set_key change s d).0 d
  unfolding set_bool_key set_int_key
  set_key-saves (to_flag j v) s d = refl
  set_key-saves (to_number j n) s d = refl

  set_key-flag :
      (change : Change) (s : Settings) (d : Disk) (k : ℕ)
      → get_bool_key k (set_key change s d).0 ≡ flag_after change k s
  set_key-flag (to_flag j v) s d k = get_bool_key-assign s d j k v
  set_key-flag (to_number j n) s d k = get_bool_key-number s d j k n

  set_key-number :
      (change : Change) (s : Settings) (d : Disk) (i : ℕ)
      → get_int_key i (set_key change s d).0 ≡ number_after change i s
  set_key-number (to_flag j v) s d i = get_int_key-flag s d j i v
  set_key-number (to_number j n) s d i = get_int_key-assign s d j i n

  -- The settings are a map that outlives the process. After a flag or an integer is set, a new process
  -- finds it, and every other flag and integer as it was, its default where it was never set; where
  -- the file can be written, the library has memory for its text, and the integer that is read fits
  -- its type.
  pub set_key-load :
      (change : Change) (s : Settings) (d : Disk) (text : Text) (k i : ℕ)
      → d.can_write path ≡ true
      → Writes y true (settings_body y (set_key change s d).0) text
      → ((n : ℤ) → (set_key change s d).0.g_int i ≡ some n → IsInt32 n)
      → k < length bool_settings
      → i < length int_settings
      → let restarted = load y path (set_key change s d).1 no_settings in
        (get_bool_key k restarted ≡ flag_after change k s)
        × (get_int_key i restarted ≡ number_after change i s)
  set_key-load change s d text k i writable w fits bool_key int_key =
      let s' = (set_key change s d).0 in
      rw (set_key-saves change s d) (
        bools-load y path s' d text k writable w bool_key ∙ set_key-flag change s d k,
        ints-load y path s' d text i writable w fits int_key ∙ set_key-number change s d i,
      )
