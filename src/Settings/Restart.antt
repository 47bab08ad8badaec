-- ===== src/Settings/Restart.antt =====
-- The loops of `load` over the objects that `save` has made.
use kdeconnect_nx.Prelude.{
  ℕ, zero, suc, ◌<◌, ◌&&◌, Text, Bool, some, List, [], ◌∷◌, ◌≡◌, refl, sym, ap, ◌∙◌, arith,
  if◌then◌else◌, length, c_str, get_elem?, Option-cases, Bool-cases, inl, inr,
}
use kdeconnect_nx.Prelude.Int.{ℤ, IsInt32}
use kdeconnect_nx.Json.Yyjson.{Yyjson}
use kdeconnect_nx.Json.Body
use kdeconnect_nx.Json.Body.{JsonBody, field, upsert}
use kdeconnect_nx.Json.Fields.{empty-IsObject}
use kdeconnect_nx.Json.Iterate.{over_bools, over_ints}
use kdeconnect_nx.Json.Setters.{set_bool, set_int}
use kdeconnect_nx.Settings.{bool_settings, int_settings, Store, overwrite, get, put_bools, put_ints}
use kdeconnect_nx.Settings.Tables.{bool_settings-AreNamed, int_settings-AreNamed}
use kdeconnect_nx.Settings.Fold.{hits, seen, overwrite-seen}
use kdeconnect_nx.Settings.Saved.{found_or, members_of, put, seen-put}

module _ (y : Yyjson) where
  over_bools_step :
      (table : List (Text × Bool)) (j : ℕ) (g : Store Bool) (name : Text) (v : y.Val)
      → (if y.is_bool v then overwrite table g (c_str name) (y.get_bool v) else g) j ≡ (
          if y.is_bool v && hits table y.is_bool y.get_bool j (c_str name)
          then some (y.get_bool v)
          else g j)
  over_bools_step table j g name v = elim (Bool-cases (y.is_bool v)) [
    | inl typed ↦
        rw typed (overwrite-seen table y.is_bool y.get_bool j g (c_str name) (y.get_bool v))
    | inr other ↦ rw other refl
  ]

  over_bools-seen :
      (table : List (Text × Bool)) (j : ℕ) (m : List (Text × y.Val)) (g : Store Bool)
      → over_bools y (overwrite table) g m j ≡ seen table y.is_bool y.get_bool j m (g j)
  unfolding over_bools
  over_bools-seen table j [] g = refl
  over_bools-seen table j ((name, v) ∷ m) g =
      over_bools-seen table j m
        (if y.is_bool v then overwrite table g (c_str name) (y.get_bool v) else g)
      ∙ ap (seen table y.is_bool y.get_bool j m) (over_bools_step table j g name v)

  over_ints_step :
      (table : List (Text × ℤ)) (j : ℕ) (g : Store ℤ) (name : Text) (v : y.Val)
      → (if y.is_int v then overwrite table g (c_str name) (y.get_int v) else g) j ≡ (
          if y.is_int v && hits table y.is_int y.get_int j (c_str name)
          then some (y.get_int v)
          else g j)
  over_ints_step table j g name v = elim (Bool-cases (y.is_int v)) [
    | inl typed ↦ rw typed (overwrite-seen table y.is_int y.get_int j g (c_str name) (y.get_int v))
    | inr other ↦ rw other refl
  ]

  over_ints-seen :
      (table : List (Text × ℤ)) (j : ℕ) (m : List (Text × y.Val)) (g : Store ℤ)
      → over_ints y (overwrite table) g m j ≡ seen table y.is_int y.get_int j m (g j)
  unfolding over_ints
  over_ints-seen table j [] g = refl
  over_ints-seen table j ((name, v) ∷ m) g =
      over_ints-seen table j m
        (if y.is_int v then overwrite table g (c_str name) (y.get_int v) else g)
      ∙ ap (seen table y.is_int y.get_int j m) (over_ints_step table j g name v)

  pub put_bools-put :
      (t : List (Text × Bool)) (i : ℕ) (g : Store Bool) (b : JsonBody y)
      → put_bools y t i g b ≡ put y y.mut_bool t i g b
  unfolding put_bools set_bool
  put_bools-put [] i g b = refl
  put_bools-put ((name, default) ∷ t) i g b = elim (Option-cases (g i)) [
    | inl missing ↦ rw missing (put_bools-put t (suc i) g b)
    | inr (v, e) ↦ rw e (put_bools-put t (suc i) g (upsert y b name (y.mut_bool v)))
  ]

  pub put_ints-put :
      (t : List (Text × ℤ)) (i : ℕ) (g : Store ℤ) (b : JsonBody y)
      → put_ints y t i g b ≡ put y y.mut_int t i g b
  unfolding put_ints set_int
  put_ints-put [] i g b = refl
  put_ints-put ((name, default) ∷ t) i g b = elim (Option-cases (g i)) [
    | inl missing ↦ rw missing (put_ints-put t (suc i) g b)
    | inr (v, e) ↦ rw e (put_ints-put t (suc i) g (upsert y b name (y.mut_int v)))
  ]

  -- The object of the settings of this type, as it is loaded over a map.
  pub bools_again :
      (g : Store Bool) (seed : Store Bool) (j : ℕ) (o : y.Val)
      → put_bools y bool_settings 0 g (Body.empty y) ≡ some o
      → j < length bool_settings
      → over_bools y (overwrite bool_settings) seed (y.members o) j ≡ found_or (g j) (seed j)
  bools_again g seed j o e inside =
      let made = sym (put_bools-put bool_settings 0 g (Body.empty y)) ∙ e in
      over_bools-seen bool_settings j (y.members o) seed
      ∙ ap (λ b. seen bool_settings y.is_bool y.get_bool j (members_of y b) (seed j)) (sym made)
      ∙ seen-put y y.mut_bool bool_settings y.is_bool y.get_bool j (y.is_bool-mut_bool)
          bool_settings 0 g (Body.empty y) (seed j) (empty-IsObject y) bool_settings-AreNamed
          (λ v h. y.get_bool-mut_bool v) (omega arith) (omega (arith, inside))
      ∙ ap (λ m. found_or (g j) (seen bool_settings y.is_bool y.get_bool j m (seed j)))
          y.members-mut_obj

  -- The object of the settings of this type, as it is loaded over a map.
  pub ints_again :
      (g : Store ℤ) (seed : Store ℤ) (j : ℕ) (o : y.Val)
      → put_ints y int_settings 0 g (Body.empty y) ≡ some o
      → ((v : ℤ) → g j ≡ some v → IsInt32 v)
      → j < length int_settings
      → over_ints y (overwrite int_settings) seed (y.members o) j ≡ found_or (g j) (seed j)
  ints_again g seed j o e fits inside =
      let made = sym (put_ints-put int_settings 0 g (Body.empty y)) ∙ e in
      over_ints-seen int_settings j (y.members o) seed
      ∙ ap (λ b. seen int_settings y.is_int y.get_int j (members_of y b) (seed j)) (sym made)
      ∙ seen-put y y.mut_int int_settings y.is_int y.get_int j (y.is_int-mut_int) int_settings 0 g
          (Body.empty y) (seed j) (empty-IsObject y) int_settings-AreNamed
          (λ v h. y.get_int-mut_int v (fits v h)) (omega arith) (omega (arith, inside))
      ∙ ap (λ m. found_or (g j) (seen int_settings y.is_int y.get_int j m (seed j)))
          y.members-mut_obj

module _ {V : Type 0} where
  pub get_elem-held :
      (t : List (Text × V)) (k : ℕ) → k < length t → (e : Text × V) × (get_elem? t k ≡ some e)
  get_elem-held [] k h = absurd (omega (arith, h))
  get_elem-held (e ∷ t) zero h = (e, refl)
  get_elem-held (e ∷ t) (suc k) h = get_elem-held t k (omega (arith, h))

  pub get_found :
      (table : List (Text × V)) (other : V) (k : ℕ) (g g' : Store V) (e : Text × V)
      → get_elem? table k ≡ some e
      → g' k ≡ found_or (g k) (some (e.1))
      → get table other k g' ≡ get table other k g
  unfolding get
  get_found table other k g g' e here known = elim (Option-cases (g k)) [
    | inl missing ↦ rw (known, missing, here) refl
    | inr (v, held) ↦ rw (known, held) refl
  ]
