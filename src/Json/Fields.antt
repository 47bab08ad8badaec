-- ===== src/Json/Fields.antt =====
-- Reading fields of a body that was built by setters.
use kdeconnect_nx.Prelude.{
  Text, true, false, Option, none, some, [], ◌∷◌, ◌≡◌, ◌∙◌, arith, if◌then◌else◌, lookup, erase,
  eq_text, eq_text_iff, lookup-append, lookup-erase,
}
use kdeconnect_nx.Json.Yyjson.{Yyjson}
use kdeconnect_nx.Json.Body
use kdeconnect_nx.Json.Body.{JsonBody, field, upsert, has, read_or}

module _ (y : Yyjson) where
  open y use {Val}

  -- A body whose root is an object, as every body is that was not moved from.
  abbrev pub IsObject : JsonBody y → Type 0
  IsObject none = ⊥
  IsObject (some v) = y.is_obj v ≡ true

  pub empty-IsObject : IsObject (Body.empty y)
  empty-IsObject = y.is_obj-mut_obj

  pub upsert-IsObject :
      (b : JsonBody y) (k : Text) (v : Val) → IsObject b → IsObject (upsert y b k v)
  unfolding upsert
  upsert-IsObject none k v h = h
  upsert-IsObject (some o) k v h = y.is_obj-add (y.obj_remove_str o k) k v (y.is_obj-remove o k h)

  field-members :
      (o : Val) (k : Text) → y.is_obj o ≡ true → field y (some o) k ≡ lookup k (y.members o)
  unfolding field
  field-members o k h = rw h (y.obj_get-members o k h)

  pub field-empty : (k : Text) → field y (Body.empty y) k ≡ none
  unfolding lookup
  field-empty k = field-members y.mut_obj k y.is_obj-mut_obj ∙ rw y.members-mut_obj

  -- A setter changes its own field and no other.
  pub field-upsert :
      (b : JsonBody y) (j k : Text) (v : Val)
      → IsObject b
      → field y (upsert y b j v) k ≡ (if eq_text j k then some v else field y b k)
  unfolding upsert lookup
  field-upsert none j k v h = absurd h
  field-upsert (some o) j k v h =
      let removed = y.obj_remove_str o j in
      let removed_obj = y.is_obj-remove o j h in
      field-members (y.obj_add removed j v) k (y.is_obj-add removed j v removed_obj)
      ∙ rw (y.members-add removed j v removed_obj, y.members-remove o j h)
          (ground (
            arith,
            lookup-append k (erase j (y.members o)) ((j, v) ∷ []),
            lookup-erase j k (y.members o),
            field-members o k h,
          ))

  pub field-upsert_self :
      (b : JsonBody y) (k : Text) (v : Val) → IsObject b → field y (upsert y b k v) k ≡ some v
  field-upsert_self b k v h = field-upsert b k k v h ∙ ground (arith, eq_text_iff k k)

  pub field-upsert_ne :
      (b : JsonBody y) (j k : Text) (v : Val) {o : Option Val}
      → IsObject b
      → eq_text j k ≡ false
      → field y b k ≡ o
      → field y (upsert y b j v) k ≡ o
  field-upsert_ne b j k v h ne e = field-upsert b j k v h ∙ rw ne e

  pub has-field :
      (b : JsonBody y) (k : Text) {v : Val} → field y b k ≡ some v → Body.has y b k ≡ true
  unfolding has
  has-field b k e = rw e

  pub has_no_field : (b : JsonBody y) (k : Text) → field y b k ≡ none → Body.has y b k ≡ false
  unfolding has
  has_no_field b k e = rw e
