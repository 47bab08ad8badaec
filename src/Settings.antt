-- ===== src/Settings.antt =====
-- sysmodule/src/utils/settings_store.cpp and the tables of common/src/constants.h. A setting is named
-- by the number that its enumerator has. The two maps are functions; `save` goes through a map in the
-- order of the keys, since an unordered map promises none. The path of the file is an argument, and its
-- folder is taken to exist.
pub mod Tables
pub mod Fold
pub mod Saved
pub mod Restart
pub mod Durable
pub mod Changes
use kdeconnect_nx.Prelude.{
  ℕ, zero, suc, Text, bytes, Bool, true, false, Option, none, some, List, [], ◌∷◌, if◌then◌else◌,
  ◌==◌, get_elem?, eq_text, is_empty,
}
use kdeconnect_nx.Prelude.Int.{ℤ, pos}
use kdeconnect_nx.Json.Yyjson.{Yyjson}
use kdeconnect_nx.Json.Body
use kdeconnect_nx.Json.Body.{JsonBody}
use kdeconnect_nx.Json.Iterate.{each_bool, each_int}
use kdeconnect_nx.Json.Setters.{set_bool, set_int, set_obj, dump}
use kdeconnect_nx.Storage.{Disk, read_file, write_file}

-- `KDEC_BOOL_SETTINGS` and `KDEC_INT_SETTINGS`: the names with their defaults.
abbrev pub bool_settings : List (Text × Bool)
bool_settings =
    (bytes "NotificationShowRemoteMessages", true)
    ∷ (bytes "NotificationShowOnConnect", false)
    ∷ (bytes "NotificationShowIcon", true)
    ∷ (bytes "NotificationShowTime", true)
    ∷ (bytes "NotificationDynamicFontSize", false)
    ∷ (bytes "NotificationShowOnBatteryLow", true)
    ∷ (bytes "RunCommandPowerCommandsEnabled", true)
    ∷ (bytes "MprisShowAlbumArt", true)
    ∷ (bytes "MprisAlbumArtTopLayout", true)
    ∷ []

abbrev pub int_settings : List (Text × ℤ)
int_settings =
    (bytes "NotificationDuration", pos 4000)
    ∷ (bytes "MprisSeekStepSize", pos 10000)
    ∷ (bytes "NotificationFontSize", pos 22)
    ∷ (bytes "NotificationStyle", pos 0)
    ∷ []

-- An unordered map from keys.
abbrev pub Store : Type 0 → Type 0
Store V = ℕ → Option V

module _ {V : Type 0} where
  unfoldable pub assign : ℕ → V → Store V → Store V
  assign k v g = λ j. if j == k then some v else g j

  unfoldable pub emplace : ℕ → V → Store V → Store V
  emplace k v g = λ j. elim (g j) [ some w ↦ some w | none ↦ if j == k then some v else none ]

  -- `apply_defaults_locked`, from the key of the first entry on.
  unfoldable pub apply_defaults : List (Text × V) → ℕ → Store V → Store V
  apply_defaults [] i g = g
  apply_defaults ((name, default) ∷ t) i g = apply_defaults t (suc i) (emplace i default g)

  -- `bool_key_from_name` and `int_key_from_name`, from the key of the first entry on.
  unfoldable pub key_from_name : List (Text × V) → ℕ → Text → Option ℕ
  key_from_name [] i s = none
  key_from_name ((name, default) ∷ t) i s =
      let rest = key_from_name t (suc i) s in if eq_text s name then some i else rest

  unfoldable pub assign_at : Option ℕ → V → Store V → Store V
  assign_at none v g = g
  assign_at (some k) v g = assign k v g

  -- The callbacks of `load`.
  unfoldable pub overwrite : List (Text × V) → Store V → Text → V → Store V
  overwrite table g name val = assign_at (key_from_name table 0 name) val g

  abbrev pub default_of : V → Option (Text × V) → V
  default_of other (some (name, default)) = default
  default_of other none = other

  abbrev pub value_or : V → Option V → V
  value_or default (some v) = v
  value_or default none = default

  -- `get`, with what it returns for a key that is not in the enumeration.
  unfoldable pub get : List (Text × V) → V → ℕ → Store V → V
  get table other k g = value_or (default_of other (get_elem? table k)) (g k)

pub record Settings : Type 0 where
  pub g_bool : Store Bool
  pub g_int : Store ℤ

unfoldable pub get_bool_key : ℕ → Settings → Bool
get_bool_key k s = get bool_settings false k s.g_bool

unfoldable pub get_int_key : ℕ → Settings → ℤ
get_int_key k s = get int_settings (pos 0) k s.g_int

-- The maps as the program starts.
abbrev pub no_settings : Settings
no_settings = record { g_bool = λ k. none; g_int = λ k. none }

-- The defaults for the keys that have no entry.
unfoldable pub seeded : Settings → Settings
seeded s = record {
  g_bool = apply_defaults bool_settings 0 s.g_bool;
  g_int = apply_defaults int_settings 0 s.g_int;
}

module _ (y : Yyjson) where
  -- The loops of `save`, from the key of the first entry on.
  unfoldable pub put_bools : List (Text × Bool) → ℕ → Store Bool → JsonBody y → JsonBody y
  put_bools [] i g b = b
  put_bools ((name, default) ∷ t) i g b =
      put_bools t (suc i) g (elim (g i) [ some v ↦ set_bool y name v b | none ↦ b ])

  unfoldable pub put_ints : List (Text × ℤ) → ℕ → Store ℤ → JsonBody y → JsonBody y
  put_ints [] i g b = b
  put_ints ((name, default) ∷ t) i g b =
      put_ints t (suc i) g (elim (g i) [ some v ↦ set_int y name v b | none ↦ b ])

  unfoldable pub settings_body : Settings → JsonBody y
  settings_body s =
      set_obj y (bytes "int") (put_ints int_settings 0 s.g_int (Body.empty y)) (
        set_obj y (bytes "bool") (put_bools bool_settings 0 s.g_bool (Body.empty y)) (Body.empty y))

module _ (y : Yyjson) (path : Text) where
  unfoldable pub load : Disk → Settings → Settings
  load d s =
      let buf = read_file d path in
      let j = Body.parse y buf in
      let s1 = seeded s in
      if is_empty buf then s1 else record {
        g_bool = each_bool y j (bytes "bool") (overwrite bool_settings) s1.g_bool;
        g_int = each_int y j (bytes "int") (overwrite int_settings) s1.g_int;
      }

  -- Whether the file could be written is only logged.
  unfoldable pub save : Settings → Disk → Disk
  save s d = (write_file d path (dump y true (settings_body y s))).0

  unfoldable pub set_bool_key : ℕ → Bool → Settings → Disk → Settings × Disk
  set_bool_key k v s d = let s' = record s { g_bool = assign k v s.g_bool } in (s', save s' d)

  unfoldable pub set_int_key : ℕ → ℤ → Settings → Disk → Settings × Disk
  set_int_key k v s d = let s' = record s { g_int = assign k v s.g_int } in (s', save s' d)
