-- ===== src/Storage/Folder.antt =====
-- The folder of the paired devices: `list_paired_device_ids` and `path_stem` of utils/storage.cpp. The
-- folder is the list of the names that `readdir` gives, with none if it cannot be opened.
pub mod Listed
use kdeconnect_nx.Prelude.{
  Text, bytes, Bool, ℕ, Option, none, some, List, [], ◌∷◌, ◌==◌, ◌||◌, eq_text, if◌then◌else◌,
}

-- The part after the last slash, with what came before it so far.
unfoldable pub after_slash : Text → Text → Text
after_slash name [] = name
after_slash name (c ∷ cs) = if c == b'/' then after_slash cs cs else after_slash name cs

unfoldable pub cut : ℕ → Option Text → Option Text
cut c none = if c == b'.' then some [] else none
cut c (some t) = some (c ∷ t)

-- The part before the last dot, if there is one.
unfoldable pub before_dot : Text → Option Text
unfolding cut
before_dot [] = none
before_dot (c ∷ cs) = cut c (before_dot cs)

unfoldable pub or_name : Text → Option Text → Text
or_name name none = name
or_name name (some t) = t

unfoldable pub path_stem : Text → Text
unfolding or_name
path_stem path = let name = after_slash path path in or_name name (before_dot name)

-- `std::string::ends_with`
unfoldable pub ends_with : Text → Text → Bool
ends_with [] suffix = eq_text [] suffix
ends_with (c ∷ cs) suffix = eq_text (c ∷ cs) suffix || ends_with cs suffix

unfoldable pub list_paired_device_ids : List Text → List Text
list_paired_device_ids [] = []
list_paired_device_ids (name ∷ names) =
    let rest = list_paired_device_ids names in
    if ends_with name (bytes ".json") then path_stem name ∷ rest else rest
