-- ===== src/Settings/Fold.antt =====
-- What `load` makes of the members that `save` has put into an object, for one key.
use kdeconnect_nx.Prelude.{
  ℕ, ◌&&◌, Text, Bool, false, Option, none, some, List, [], ◌∷◌, ◌++◌, ◌≡◌, refl, ap, ◌∙◌, arith,
  if◌then◌else◌, ◌==◌, eq_text, eq_text_iff, c_str, erase, Bool-cases, inl, inr,
}
use kdeconnect_nx.Settings.{Store, assign, assign_at, key_from_name, overwrite}

-- The values `Val` of a JSON library, of which some stand for a `V`.
module _ {V Val : Type 0} (table : List (Text × V)) (test : Val → Bool) (read : Val → V)
    (j : ℕ) where
  abbrev pub is_key : Option ℕ → Bool
  is_key (some i) = j == i
  is_key none = false

  -- The name stands for the key `j`.
  abbrev pub hits : Text → Bool
  hits name = is_key (key_from_name table 0 name)

  -- What the map has at `j` after the callback has seen the members.
  abbrev pub seen : List (Text × Val) → Option V → Option V
  seen [] x = x
  seen ((name, v) ∷ m) x = seen m (if test v && hits (c_str name) then some (read v) else x)

  assign_at-key :
      (o : Option ℕ) (v : V) (g : Store V) → assign_at o v g j ≡ (if is_key o then some v else g j)
  unfolding assign_at assign
  assign_at-key none v g = refl
  assign_at-key (some i) v g = refl

  pub overwrite-seen :
      (g : Store V) (name : Text) (v : V)
      → overwrite table g name v j ≡ (if hits name then some v else g j)
  unfolding overwrite
  overwrite-seen g name v = assign_at-key (key_from_name table 0 name) v g

  pub seen-append :
      (m : List (Text × Val)) (name : Text) (v : Val) (x : Option V)
      → seen (m ++ (name, v) ∷ []) x
        ≡ (if test v && hits (c_str name) then some (read v) else seen m x)
  seen-append [] name v x = refl
  seen-append ((n, w) ∷ m) name v x =
      seen-append m name v (if test w && hits (c_str n) then some (read w) else x)

  pub seen-erase :
      (name : Text) (m : List (Text × Val)) (x : Option V)
      → hits (c_str name) ≡ false
      → seen (erase name m) x ≡ seen m x
  unfolding erase
  seen-erase name [] x miss = refl
  seen-erase name ((n, w) ∷ m) x miss = elim (Bool-cases (eq_text n name)) [
    | inl same ↦
        let missed : hits (c_str n) ≡ false =
          ap (λ t. hits (c_str t)) ((eq_text_iff n name).0 same) ∙ miss in
        let none_hit : (test w && false) ≡ false = ground arith in
        rw (same, missed, none_hit) (seen-erase name m x miss)
    | inr other ↦
        rw other (seen-erase name m (if test w && hits (c_str n) then some (read w) else x) miss)
  ]
