-- ===== src/Settings/Tables.antt =====
-- What the tables are to the keys.
use kdeconnect_nx.Prelude.{
  ℕ, zero, suc, ◌+◌, Text, bytes, true, false, none, some, List, [], ◌∷◌, ◌≡◌, refl, ap, ◌∙◌, arith,
  ◌==◌, get_elem?, eq_text, c_str,
}
use mathlib.Core.Option.{some-injective}
use kdeconnect_nx.Settings.{
  bool_settings, int_settings, Store, emplace, apply_defaults, key_from_name,
}

module _ {V : Type 0} where
  -- Each name of the entries, from the key `i` on, stands for its key alone, and has no NUL.
  abbrev pub AreNamed : List (Text × V) → List (Text × V) → ℕ → Type 0
  AreNamed table [] i = Unit
  AreNamed table ((name, default) ∷ t) i =
      (key_from_name table 0 name ≡ some i) × (c_str name ≡ name) × AreNamed table t (suc i)

  emplace_kept : (k j : ℕ) (v w : V) (g : Store V) → g j ≡ some w → emplace k v g j ≡ some w
  unfolding emplace
  emplace_kept k j v w g e = rw (emplace, e) refl

  apply_defaults-kept :
      (t : List (Text × V)) (i j : ℕ) (w : V) (g : Store V)
      → g j ≡ some w
      → apply_defaults t i g j ≡ some w
  unfolding apply_defaults
  apply_defaults-kept [] i j w g e = e
  apply_defaults-kept ((name, default) ∷ t) i j w g e =
      apply_defaults-kept t (suc i) j w (emplace i default g) (emplace_kept i j default w g e)

  emplace_here : (k j : ℕ) (v : V) (g : Store V) → j ≡ k → g j ≡ none → emplace k v g j ≡ some v
  unfolding emplace
  emplace_here k j v g same e =
      let here : (j == k) ≡ true = ground (arith, same) in rw (emplace, e, here) refl

  emplace_other :
      (k j : ℕ) (v : V) (g : Store V) → (j == k) ≡ false → g j ≡ none → emplace k v g j ≡ none
  unfolding emplace
  emplace_other k j v g ne e = rw (emplace, e, ne) refl

  -- An empty map gets the default of every key that is in the table.
  pub apply_defaults-get :
      (t : List (Text × V)) (i n j : ℕ) (g : Store V) (e : Text × V)
      → j ≡ i + n
      → g j ≡ none
      → get_elem? t n ≡ some e
      → apply_defaults t i g j ≡ some (e.1)
  unfolding apply_defaults
  apply_defaults-get [] i n j g e at_n missing here = absurd (cc)
  apply_defaults-get ((name, default) ∷ t) i zero j g e at_n missing here =
      apply_defaults-kept t (suc i) j (e.1) (emplace i default g) (
        emplace_here i j default g (omega (arith, at_n)) missing
        ∙ ap (λ x. some (x.1)) (some-injective _ _ here))
  apply_defaults-get ((name, default) ∷ t) i (suc n) j g e at_n missing here =
      apply_defaults-get t (suc i) n j (emplace i default g) e (omega (arith, at_n))
        (emplace_other i j default g (ground (arith, at_n)) missing) here

pub bool_settings-AreNamed : AreNamed bool_settings bool_settings 0
unfolding key_from_name eq_text bytes c_str
bool_settings-AreNamed = (
  refl,
  refl,
  (
    refl,
    refl,
    (
      refl,
      refl,
      (refl, refl, (refl, refl, (refl, refl, (refl, refl, (refl, refl, (refl, refl, tt)))))),
    ),
  ),
)

pub int_settings-AreNamed : AreNamed int_settings int_settings 0
unfolding key_from_name eq_text bytes c_str
int_settings-AreNamed = (refl, refl, (refl, refl, (refl, refl, (refl, refl, tt))))
