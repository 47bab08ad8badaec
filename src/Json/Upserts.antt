-- ===== src/Json/Upserts.antt =====
-- The fields of a body that a chain of setters built, and what the typed readers make of them.
use kdeconnect_nx.Prelude.{
  Text, Bool, Option, none, some, List, [], ◌∷◌, map, ◌≡◌, refl, ◌∙◌, arith, if◌then◌else◌, eq_text,
  c_str, c_str_lem, HasNoNul, All,
}
use kdeconnect_nx.Prelude.Int.{ℤ, IsInt32, IsInt64}
use kdeconnect_nx.Json.Yyjson.{Yyjson}
use kdeconnect_nx.Json.Body
use kdeconnect_nx.Json.Body.{JsonBody, field, upsert, strings}
use kdeconnect_nx.Json.Fields.{IsObject, upsert-IsObject, field-upsert}

-- The entry that was set last.
unfoldable pub lookup_last {ℓ} : {V : Type ℓ} → Text → List (Text × V) → Option V
lookup_last k [] = none
lookup_last k ((j, v) ∷ m) = elim (lookup_last k m) [
  | some w ↦ some w
  | none ↦ if eq_text j k then some v else none
]

abbrev pub or_else {ℓ} : {V : Type ℓ} → Option V → Option V → Option V
or_else (some v) o = some v
or_else none o = o

module _ (y : Yyjson) where
  open y use {Val}

  abbrev pub upserts : List (Text × Val) → JsonBody y → JsonBody y
  upserts [] b = b
  upserts ((k, v) ∷ m) b = upserts m (upsert y b k v)

  pub upserts-IsObject :
      (m : List (Text × Val)) (b : JsonBody y) → IsObject y b → IsObject y (upserts m b)
  upserts-IsObject [] b h = h
  upserts-IsObject ((k, v) ∷ m) b h =
      upserts-IsObject m (upsert y b k v) (upsert-IsObject y b k v h)

  pub field-upserts :
      (m : List (Text × Val)) (b : JsonBody y) (k : Text)
      → IsObject y b
      → field y (upserts m b) k ≡ or_else (lookup_last k m) (field y b k)
  unfolding lookup_last
  field-upserts [] b k h = refl
  field-upserts ((j, v) ∷ m) b k h =
      field-upserts m (upsert y b j v) k (upsert-IsObject y b j v h)
      ∙ rw (field-upsert y b j k v h) (ground arith)

  module _ (b : JsonBody y) (k : Text) where
    pub value_bool-mut_bool :
        (v d : Bool) → field y b k ≡ some (y.mut_bool v) → Body.value_bool y b k d ≡ v
    unfolding Body.value_bool
    value_bool-mut_bool v d e = rw (e, y.is_bool-mut_bool v) (y.get_bool-mut_bool v)

    pub value_int-mut_int :
        (v d : ℤ) → IsInt32 v → field y b k ≡ some (y.mut_int v) → Body.value_int y b k d ≡ v
    unfolding Body.value_int
    value_int-mut_int v d r e = rw (e, y.is_num-mut_int v) (y.get_int-mut_int v r)

    pub value_i64-mut_sint :
        (v d : ℤ) → IsInt64 v → field y b k ≡ some (y.mut_sint v) → Body.value_i64 y b k d ≡ v
    unfolding Body.value_i64
    value_i64-mut_sint v d r e = rw (e, y.is_num-mut_sint v) (y.get_sint-mut_sint v r)

    pub value_str-mut_strcpy :
        (s d : Text)
        → HasNoNul s
        → field y b k ≡ some (y.mut_strcpy (c_str s))
        → Body.value_str y b k d ≡ s
    unfolding Body.value_str
    value_str-mut_strcpy s d clean e =
        rw (e, y.is_str-mut_strcpy (c_str s), y.get_str-mut_strcpy (c_str s))
          (rw (c_str_lem s clean) (c_str_lem s clean))

    pub value_str-none : (d : Text) → field y b k ≡ none → Body.value_str y b k d ≡ d
    unfolding Body.value_str
    value_str-none d e = rw e

    pub value_i64-none : (d : ℤ) → field y b k ≡ none → Body.value_i64 y b k d ≡ d
    unfolding Body.value_i64
    value_i64-none d e = rw e

    pub get_str_array-mut_arr :
        (ss : List Text)
        → All HasNoNul ss
        → field y b k ≡ some (y.mut_arr (map (λ s. y.mut_strcpy (c_str s)) ss))
        → Body.get_str_array y b k ≡ ss
    unfolding Body.get_str_array
    get_str_array-mut_arr ss clean e =
        rw
          (
            e,
            y.is_arr-mut_arr (map (λ s. y.mut_strcpy (c_str s)) ss),
            y.items-mut_arr (map (λ s. y.mut_strcpy (c_str s)) ss),
          )
          (strings-map ss clean)
      where
        strings-map :
            (ss : List Text)
            → All HasNoNul ss
            → strings y (map (λ s. y.mut_strcpy (c_str s)) ss) ≡ ss
        strings-map [] clean = refl
        strings-map (s ∷ ss) clean =
            rw
              (
                y.is_str-mut_strcpy (c_str s),
                y.get_str-mut_strcpy (c_str s),
                strings-map ss clean.1,
              )
              (rw (c_str_lem s clean.0) (rw (c_str_lem s clean.0)))
