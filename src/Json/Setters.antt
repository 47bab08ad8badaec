-- ===== src/Json/Setters.antt =====
-- json_body.cpp: the setters, and the text of a body. A setter changes its body in place; here it
-- returns the body that results. A body that was moved from has no document and stays as it is.
use kdeconnect_nx.Prelude.{Text, Bool, Option, none, some, List, [], ◌∷◌, map, c_str, bytes}
use kdeconnect_nx.Prelude.Int.{ℤ}
use kdeconnect_nx.Json.Yyjson.{Yyjson}
use kdeconnect_nx.Json.Body.{JsonBody, field, upsert}

module _ (y : Yyjson) where
  open y use {Val}

  unfoldable pub set_bool : Text → Bool → JsonBody y → JsonBody y
  set_bool key v b = upsert y b key (y.mut_bool v)

  unfoldable pub set_int : Text → ℤ → JsonBody y → JsonBody y
  set_int key v b = upsert y b key (y.mut_int v)

  unfoldable pub set_i64 : Text → ℤ → JsonBody y → JsonBody y
  set_i64 key v b = upsert y b key (y.mut_sint v)

  -- Both string setters: the second hands `v.c_str()` to the first.
  unfoldable pub set_str : Text → Text → JsonBody y → JsonBody y
  set_str key v b = upsert y b key (y.mut_strcpy (c_str v))

  -- Both setters of a sub-object.
  unfoldable pub set_obj : Text → JsonBody y → JsonBody y → JsonBody y
  set_obj key none b = b
  set_obj key (some child) b = upsert y b key child

  upsert_copy : Text → Option Val → JsonBody y → JsonBody y
  upsert_copy key none b = b
  upsert_copy key (some v) b = upsert y b key v

  unfoldable pub copy_field : Text → JsonBody y → JsonBody y → JsonBody y
  unfolding upsert_copy
  copy_field key src b = upsert_copy key (field y src key) b

  unfoldable pub set_str_array : Text → List Text → JsonBody y → JsonBody y
  set_str_array key v b = upsert y b key (y.mut_arr (map (λ s. y.mut_strcpy (c_str s)) v))

  object_of : JsonBody y → List Val
  object_of none = []
  object_of (some obj) = obj ∷ []

  -- The callback fills the one object of the array.
  unfoldable pub set_array_with_object : Text → (JsonBody y → JsonBody y) → JsonBody y → JsonBody y
  unfolding object_of
  set_array_with_object key fn b = upsert y b key (y.mut_arr (object_of (fn (some y.mut_obj))))

  written : Option Text → Text
  written none = bytes "{}"
  written (some s) = s

  -- `dump()` and, with the flag, `dump(2)`.
  unfoldable pub dump : Bool → JsonBody y → Text
  unfolding written
  dump pretty none = written none
  dump pretty (some v) = written (y.write pretty v)
