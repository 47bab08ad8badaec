-- ===== src/Settings/Saved.antt =====
-- The object that `save` makes of a map, as `load` sees it.
use kdeconnect_nx.Prelude.{
  ℕ, suc, ◌+◌, ◌≤◌, ◌<◌, Text, Bool, true, false, Option, none, some, List, [], ◌∷◌, ◌++◌, ◌≡◌,
  refl, sym, ap, ◌∙◌, arith, if◌then◌else◌, ◌==◌, length, c_str, erase, Bool-cases, inl, inr,
}
use kdeconnect_nx.Json.Yyjson.{Yyjson}
use kdeconnect_nx.Json.Body.{JsonBody, upsert}
use kdeconnect_nx.Json.Fields.{IsObject, upsert-IsObject}
use kdeconnect_nx.Settings.{Store, key_from_name}
use kdeconnect_nx.Settings.Tables.{AreNamed}
use kdeconnect_nx.Settings.Fold.{hits, seen, seen-append, seen-erase}

-- What is found, or else what was there.
abbrev pub found_or : {V : Type 0} → Option V → Option V → Option V
found_or (some v) x = some v
found_or none x = x

module _ (y : Yyjson) where
  abbrev pub members_of : JsonBody y → List (Text × y.Val)
  members_of none = []
  members_of (some o) = y.members o

  members_of-upsert :
      (b : JsonBody y) (k : Text) (v : y.Val)
      → IsObject y b
      → members_of (upsert y b k v) ≡ erase k (members_of b) ++ (k, v) ∷ []
  unfolding upsert
  members_of-upsert none k v h = absurd h
  members_of-upsert (some o) k v h =
      y.members-add (y.obj_remove_str o k) k v (y.is_obj-remove o k h)
      ∙ ap (λ m. m ++ (k, v) ∷ []) (y.members-remove o k h)

  module _ {V : Type 0} (make : V → y.Val) where
    abbrev pub put_at : Text → Option V → JsonBody y → JsonBody y
    put_at name none b = b
    put_at name (some v) b = upsert y b name (make v)

    -- The loop of `save`.
    abbrev pub put : List (Text × V) → ℕ → Store V → JsonBody y → JsonBody y
    put [] i g b = b
    put ((name, default) ∷ t) i g b = put t (suc i) g (put_at name (g i) b)

    put_at-IsObject :
        (name : Text) (o : Option V) (b : JsonBody y) → IsObject y b → IsObject y (put_at name o b)
    put_at-IsObject name none b h = h
    put_at-IsObject name (some v) b h = upsert-IsObject y b name (make v) h

    pub put-IsObject :
        (t : List (Text × V)) (i : ℕ) (g : Store V) (b : JsonBody y)
        → IsObject y b
        → IsObject y (put t i g b)
    put-IsObject [] i g b h = h
    put-IsObject ((name, default) ∷ t) i g b h =
        put-IsObject t (suc i) g (put_at name (g i) b) (put_at-IsObject name (g i) b h)

    module _ (table : List (Text × V)) (test : y.Val → Bool) (read : y.Val → V) (j : ℕ)
        (tested : (v : V) → test (make v) ≡ true) where
      seen-upsert :
          (b : JsonBody y) (name : Text) (v : V) (x : Option V)
          → IsObject y b
          → seen table test read j (members_of (upsert y b name (make v))) x ≡ (
              if hits table test read j (c_str name)
              then some (read (make v))
              else seen table test read j (erase name (members_of b)) x)
      seen-upsert b name v x h =
          ap (λ m. seen table test read j m x) (members_of-upsert b name (make v) h)
          ∙ seen-append table test read j (erase name (members_of b)) name (make v) x
          ∙ rw (tested v) refl

      seen_other :
          (b : JsonBody y) (name : Text) (o : Option V) (x : Option V)
          → IsObject y b
          → hits table test read j (c_str name) ≡ false
          → seen table test read j (members_of (put_at name o b)) x
            ≡ seen table test read j (members_of b) x
      seen_other b name none x h miss = refl
      seen_other b name (some v) x h miss =
          seen-upsert b name v x h
          ∙ rw miss (seen-erase table test read j name (members_of b) x miss)

      seen_here :
          (b : JsonBody y) (name : Text) (o : Option V) (x : Option V)
          → IsObject y b
          → hits table test read j (c_str name) ≡ true
          → ((v : V) → o ≡ some v → read (make v) ≡ v)
          → seen table test read j (members_of (put_at name o b)) x
            ≡ found_or o (seen table test read j (members_of b) x)
      seen_here b name none x h hit reads = refl
      seen_here b name (some v) x h hit reads =
          seen-upsert b name v x h ∙ rw hit (ap some (reads v refl))

      -- The name of the key `i` stands for `j` if that is the key.
      hits_named :
          (name : Text) (i : ℕ)
          → key_from_name table 0 name ≡ some i
          → c_str name ≡ name
          → hits table test read j (c_str name) ≡ (j == i)
      hits_named name i known plain = rw (plain, known) refl

      seen-put_outside :
          (t : List (Text × V)) (i : ℕ) (g : Store V) (b : JsonBody y) (x : Option V)
          → IsObject y b
          → AreNamed table t i
          → j < i
          → seen table test read j (members_of (put t i g b)) x
            ≡ seen table test read j (members_of b) x
      seen-put_outside [] i g b x h named before = refl
      seen-put_outside ((name, default) ∷ t) i g b x h named before =
          seen-put_outside t (suc i) g (put_at name (g i) b) x (put_at-IsObject name (g i) b h)
            named.2 (omega (arith, before))
          ∙ seen_other b name (g i) x h (hits_named name i named.0 named.1 ∙ ground (arith, before))

      -- What was saved for a key of the table is found again.
      pub seen-put :
          (t : List (Text × V)) (i : ℕ) (g : Store V) (b : JsonBody y) (x : Option V)
          → IsObject y b
          → AreNamed table t i
          → ((v : V) → g j ≡ some v → read (make v) ≡ v)
          → i ≤ j
          → j < i + length t
          → seen table test read j (members_of (put t i g b)) x
            ≡ found_or (g j) (seen table test read j (members_of b) x)
      seen-put [] i g b x h named reads from to = absurd (omega (arith, from, to))
      seen-put ((name, default) ∷ t) i g b x h named reads from to = elim (Bool-cases (j == i)) [
        | inl here ↦
            let same : j ≡ i = ground (arith, here) in
            seen-put_outside t (suc i) g (put_at name (g i) b) x (put_at-IsObject name (g i) b h)
              named.2 (omega (arith, same))
            ∙ seen_here b name (g i) x h (hits_named name i named.0 named.1 ∙ here)
                (λ v e. reads v (ap g same ∙ e))
            ∙ ap (λ k. found_or (g k) (seen table test read j (members_of b) x)) (sym same)
        | inr later ↦
            seen-put t (suc i) g (put_at name (g i) b) x (put_at-IsObject name (g i) b h) named.2
              reads (ground (arith, from, later)) (omega (arith, to))
            ∙ ap (found_or (g j))
                (seen_other b name (g i) x h (hits_named name i named.0 named.1 ∙ later))
      ]
