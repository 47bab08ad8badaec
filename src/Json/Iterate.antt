-- ===== src/Json/Iterate.antt =====
-- json_body.cpp: the iterators. A callback that changes a state of type `S` is a function
-- `S → … → S`; the loop hands it the entries in order.
use kdeconnect_nx.Prelude.{Text, Bool, not, none, some, List, [], ◌∷◌, if◌then◌else◌, c_str}
use kdeconnect_nx.Prelude.Int.{ℤ}
use kdeconnect_nx.Json.Yyjson.{Yyjson}
use kdeconnect_nx.Json.Body.{JsonBody, field, read_or, strings}

module _ {ℓ} (y : Yyjson) {S : Type ℓ} where
  open y use {Val}

  over_strings : (S → Text → S) → S → List Text → S
  over_strings fn s [] = s
  over_strings fn s (t ∷ ts) = over_strings fn (fn s t) ts

  unfoldable pub each_str : JsonBody y → Text → (S → Text → S) → S → S
  unfolding over_strings
  each_str b key fn s =
      read_or y y.is_arr (λ arr. over_strings fn s (strings y (y.items arr))) s (field y b key)

  over_objects : (S → JsonBody y → S) → S → List Val → S
  over_objects fn s [] = s
  over_objects fn s (item ∷ vs) = over_objects fn (if y.is_obj item then fn s (some item) else s) vs

  unfoldable pub each_obj : JsonBody y → Text → (S → JsonBody y → S) → S → S
  unfolding over_objects
  each_obj b key fn s =
      read_or y y.is_arr (λ arr. over_objects fn s (y.items arr)) s (field y b key)

  unfoldable pub over_bools : (S → Text → Bool → S) → S → List (Text × Val) → S
  over_bools fn s [] = s
  over_bools fn s ((k, v) ∷ m) =
      over_bools fn (if y.is_bool v then fn s (c_str k) (y.get_bool v) else s) m

  unfoldable pub each_bool : JsonBody y → Text → (S → Text → Bool → S) → S → S
  unfolding over_bools
  each_bool b key fn s =
      read_or y y.is_obj (λ obj. over_bools fn s (y.members obj)) s (field y b key)

  unfoldable pub over_ints : (S → Text → ℤ → S) → S → List (Text × Val) → S
  over_ints fn s [] = s
  over_ints fn s ((k, v) ∷ m) =
      over_ints fn (if y.is_int v then fn s (c_str k) (y.get_int v) else s) m

  unfoldable pub each_int : JsonBody y → Text → (S → Text → ℤ → S) → S → S
  unfolding over_ints
  each_int b key fn s = read_or y y.is_obj (λ obj. over_ints fn s (y.members obj)) s (field y b key)

  over_members : (S → Text → JsonBody y → S) → S → List (Text × Val) → S
  over_members fn s [] = s
  over_members fn s ((k, v) ∷ m) = over_members fn (fn s (c_str k) (some v)) m

  unfoldable pub each_kv : JsonBody y → (S → Text → JsonBody y → S) → S → S
  unfolding over_members
  each_kv none fn s = s
  each_kv (some root) fn s = if not (y.is_obj root) then s else over_members fn s (y.members root)
