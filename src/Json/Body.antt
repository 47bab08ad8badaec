-- ===== src/Json/Body.antt =====
-- json_body.cpp: the operations of `JsonBody` over yyjson. A body is the root of its document, `none`
-- for the null root of a body that was moved from. Two documents share no value, so a copy is the
-- value; a body that is a view into another's document, as the callbacks get, is its value too.
use kdeconnect_nx.Prelude.{
  Text, Bool, false, not, Option, none, some, List, [], ◌∷◌, if◌then◌else◌, is_empty, is_some,
  c_str,
}
use kdeconnect_nx.Prelude.Int.{ℤ, pos}
use kdeconnect_nx.Json.Yyjson.{Yyjson}

module _ (y : Yyjson) where
  open y use {Val}

  abbrev pub JsonBody : Type 0
  JsonBody = Option Val

  -- The default constructor.
  abbrev pub empty : JsonBody
  empty = some y.mut_obj

  unfoldable pub field : JsonBody → Text → Option Val
  field none key = none
  field (some obj) key = if not (y.is_obj obj) then none else y.obj_get obj key

  unfoldable pub upsert : JsonBody → Text → Val → JsonBody
  upsert none key val = none
  upsert (some obj) key val = some (y.obj_add (y.obj_remove_str obj key) key val)

  -- The copy constructor: a null root gives an empty object.
  unfoldable pub copy : JsonBody → JsonBody
  copy none = empty
  copy (some v) = some v

  -- The root of the document that was read, if it is an object.
  object_or_empty : Option Val → JsonBody
  object_or_empty none = empty
  object_or_empty (some root) = if not (y.is_obj root) then empty else some root

  -- The argument is the text behind a `const char*`: `strlen` stops at the first NUL.
  unfoldable pub parse : Text → JsonBody
  unfolding object_or_empty
  parse json = if is_empty (c_str json) then empty else object_or_empty (y.read (c_str json))

  -- `v && test(v)`
  abbrev pub holds : (Val → Bool) → Option Val → Bool
  holds test none = false
  holds test (some v) = test v

  -- `(v && test(v)) ? get(v) : def`
  abbrev pub read_or {ℓ} : {A : Type ℓ} → (Val → Bool) → (Val → A) → A → Option Val → A
  read_or test get def none = def
  read_or test get def (some v) = if test v then get v else def

  unfoldable pub has : JsonBody → Text → Bool
  has b key = is_some (field b key)

  unfoldable pub is_str : JsonBody → Text → Bool
  is_str b key = holds y.is_str (field b key)

  unfoldable pub is_num : JsonBody → Text → Bool
  is_num b key = holds y.is_num (field b key)

  unfoldable pub is_bool : JsonBody → Text → Bool
  is_bool b key = holds y.is_bool (field b key)

  unfoldable pub is_array : JsonBody → Text → Bool
  is_array b key = holds y.is_arr (field b key)

  unfoldable pub is_obj : JsonBody → Text → Bool
  is_obj b key = holds y.is_obj (field b key)

  -- `value` with a default of type `bool`, `int`, `int64_t`, `const char*` and `std::string`.
  unfoldable pub value_bool : JsonBody → Text → Bool → Bool
  value_bool b key def = read_or y.is_bool y.get_bool def (field b key)

  unfoldable pub value_int : JsonBody → Text → ℤ → ℤ
  value_int b key def = read_or y.is_num y.get_int def (field b key)

  unfoldable pub value_i64 : JsonBody → Text → ℤ → ℤ
  value_i64 b key def = read_or y.is_num y.get_sint def (field b key)

  -- `std::string(yyjson_mut_get_str(v))` stops at a NUL.
  unfoldable pub value_str : JsonBody → Text → Text → Text
  value_str b key def = read_or y.is_str (λ v. c_str (y.get_str v)) def (field b key)

  unfoldable pub get_bool : JsonBody → Text → Bool
  get_bool b key = read_or y.is_bool y.get_bool false (field b key)

  unfoldable pub get_int : JsonBody → Text → ℤ
  get_int b key = read_or y.is_num y.get_int (pos 0) (field b key)

  unfoldable pub get_i64 : JsonBody → Text → ℤ
  get_i64 b key = read_or y.is_num y.get_sint (pos 0) (field b key)

  unfoldable pub get_str : JsonBody → Text → Text
  get_str b key = read_or y.is_str (λ v. c_str (y.get_str v)) [] (field b key)

  -- The loop of `get_str_array` and `each_str`.
  unfoldable pub strings : List Val → List Text
  strings [] = []
  strings (v ∷ vs) = if y.is_str v then c_str (y.get_str v) ∷ strings vs else strings vs

  unfoldable pub get_str_array : JsonBody → Text → List Text
  unfolding strings
  get_str_array b key = read_or y.is_arr (λ v. strings (y.items v)) [] (field b key)

  unfoldable pub get_obj : JsonBody → Text → JsonBody
  get_obj b key = read_or y.is_obj (λ v. some v) empty (field b key)
