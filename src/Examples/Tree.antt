-- ===== src/Examples/Tree.antt =====
-- JSON values as trees, with a prefix code for their text.
use kdeconnect_nx.Prelude.{
  ℕ, zero, suc, ◌≤◌, Text, Bool, true, false, Option, none, some, List, [], ◌∷◌, ◌++◌, ◌≡◌, ◌≢◌,
  refl, ap, arith, if◌then◌else◌, HasNoNul, All-append, length, length-append, append_assoc,
}
use kdeconnect_nx.Prelude.Int.{ℤ, pos, negsuc}

mutual
  pub data Tree : Type 0 where
    null : Tree
    bool : Bool → Tree
    num : ℤ → Tree
    str : Text → Tree
    arr : Members → Tree
    obj : Members → Tree

  -- An element of an array has no key here.
  pub data Members : Type 0 where
    nil : Members
    member : Text → Tree → Members → Members

abbrev pub to_list : Members → List (Text × Tree)
to_list nil = []
to_list (member k v m) = (k, v) ∷ to_list m

abbrev pub of_list : List (Text × Tree) → Members
of_list [] = nil
of_list ((k, v) ∷ m) = member k v (of_list m)

pub to_list-of_list : (m : List (Text × Tree)) → to_list (of_list m) ≡ m
to_list-of_list [] = refl
to_list-of_list ((k, v) ∷ m) = ap (◌∷◌ (k, v)) (to_list-of_list m)

-- A text ends with 1, and its bytes are moved up by 2.
unfoldable pub encode_text : Text → Text
encode_text [] = 1 ∷ []
encode_text (c ∷ cs) = suc (suc c) ∷ encode_text cs

decode_text : Text → Option (Text × Text)
decode_text [] = none
decode_text (zero ∷ r) = none
decode_text (suc zero ∷ r) = some ([], r)
decode_text (suc (suc c) ∷ r) = elim (decode_text r) [
  | none ↦ none
  | some (cs, r') ↦ some (c ∷ cs, r')
]

decode-encode_text : (t r : Text) → decode_text (encode_text t ++ r) ≡ some (t, r)
unfolding encode_text decode_text
decode-encode_text [] r = refl
decode-encode_text (c ∷ cs) r = rw (decode-encode_text cs r)

encode_text-HasNoNul : (t : Text) → HasNoNul (encode_text t)
unfolding encode_text
encode_text-HasNoNul [] = (omega arith, tt)
encode_text-HasNoNul (c ∷ cs) = (omega arith, encode_text-HasNoNul cs)

unfoldable mutual
  pub encode : Tree → Text
  encode null = 1 ∷ []
  encode (bool b) = 2 ∷ (if b then 1 else 2) ∷ []
  encode (num (pos n)) = 3 ∷ suc n ∷ []
  encode (num (negsuc n)) = 4 ∷ suc n ∷ []
  encode (str t) = 5 ∷ encode_text t
  encode (arr m) = 6 ∷ encode_members m
  encode (obj m) = 7 ∷ encode_members m

  pub encode_members : Members → Text
  encode_members nil = 1 ∷ []
  encode_members (member k v m) = 2 ∷ (encode_text k ++ (encode v ++ encode_members m))

mutual
  decode : ℕ → Text → Option (Tree × Text)
  decode (suc f) (suc zero ∷ r) = some (null, r)
  decode (suc f) (suc (suc zero) ∷ suc zero ∷ r) = some (bool true, r)
  decode (suc f) (suc (suc zero) ∷ suc (suc zero) ∷ r) = some (bool false, r)
  decode (suc f) (suc (suc (suc zero)) ∷ suc n ∷ r) = some (num (pos n), r)
  decode (suc f) (suc (suc (suc (suc zero))) ∷ suc n ∷ r) = some (num (negsuc n), r)
  decode (suc f) (suc (suc (suc (suc (suc zero)))) ∷ r) = elim (decode_text r) [
    | none ↦ none
    | some (t, r') ↦ some (str t, r')
  ]
  decode (suc f) (suc (suc (suc (suc (suc (suc zero))))) ∷ r) = elim (decode_members f r) [
    | none ↦ none
    | some (m, r') ↦ some (arr m, r')
  ]
  decode (suc f) (suc (suc (suc (suc (suc (suc (suc zero)))))) ∷ r) = elim (decode_members f r) [
    | none ↦ none
    | some (m, r') ↦ some (obj m, r')
  ]
  decode _ _ = none

  decode_members : ℕ → Text → Option (Members × Text)
  decode_members (suc f) (suc zero ∷ r) = some (nil, r)
  decode_members (suc f) (suc (suc zero) ∷ r) = elim (decode_text r) [
    | none ↦ none
    | some (k, r') ↦ elim (decode f r') [
      | none ↦ none
      | some (v, r2) ↦ elim (decode_members f r2) [
        | none ↦ none
        | some (m, r3) ↦ some (member k v m, r3)
      ]
    ]
  ]
  decode_members _ _ = none

mutual
  unfolding encode decode encode_members decode_members

  decode-encode :
      (v : Tree) (f : ℕ) (r : Text) → length (encode v) ≤ f → decode f (encode v ++ r) ≡ some (v, r)
  decode-encode null zero r h = absurd (omega arith)
  decode-encode null (suc f) r h = refl
  decode-encode (bool b) zero r h = absurd (omega arith)
  decode-encode (bool true) (suc f) r h = refl
  decode-encode (bool false) (suc f) r h = refl
  decode-encode (num (pos n)) zero r h = absurd (omega arith)
  decode-encode (num (pos n)) (suc f) r h = refl
  decode-encode (num (negsuc n)) zero r h = absurd (omega arith)
  decode-encode (num (negsuc n)) (suc f) r h = refl
  decode-encode (str t) zero r h = absurd (omega arith)
  decode-encode (str t) (suc f) r h = rw (decode-encode_text t r, decode)
  decode-encode (arr m) zero r h = absurd (omega arith)
  decode-encode (arr m) (suc f) r h = rw (decode-encode_members m f r (omega arith), decode)
  decode-encode (obj m) zero r h = absurd (omega arith)
  decode-encode (obj m) (suc f) r h = rw (decode-encode_members m f r (omega arith), decode)

  decode-encode_members :
      (m : Members) (f : ℕ) (r : Text)
      → length (encode_members m) ≤ f
      → decode_members f (encode_members m ++ r) ≡ some (m, r)
  decode-encode_members nil zero r h = absurd (omega arith)
  decode-encode_members nil (suc f) r h = refl
  decode-encode_members (member k v m) zero r h = absurd (omega arith)
  decode-encode_members (member k v m) (suc f) r h =
      let sizes = length-append (encode_text k) (encode v ++ encode_members m) in
      let parts = length-append (encode v) (encode_members m) in
      rw (
        append_assoc (encode_text k) (encode v ++ encode_members m) r,
        append_assoc (encode v) (encode_members m) r,
        decode-encode_text k (encode v ++ (encode_members m ++ r)),
        decode-encode v f (encode_members m ++ r) (omega (arith, sizes, parts)),
        decode-encode_members m f r (omega (arith, sizes, parts)),
        decode_members,
      )

mutual
  unfolding encode encode_members

  pub encode-HasNoNul : (v : Tree) → HasNoNul (encode v)
  encode-HasNoNul null = omega arith
  encode-HasNoNul (bool true) = omega arith
  encode-HasNoNul (bool false) = omega arith
  encode-HasNoNul (num (pos n)) = omega arith
  encode-HasNoNul (num (negsuc n)) = omega arith
  encode-HasNoNul (str t) = (omega arith, encode_text-HasNoNul t)
  encode-HasNoNul (arr m) = (omega arith, encode_members-HasNoNul m)
  encode-HasNoNul (obj m) = (omega arith, encode_members-HasNoNul m)

  encode_members-HasNoNul : (m : Members) → HasNoNul (encode_members m)
  encode_members-HasNoNul nil = omega arith
  encode_members-HasNoNul (member k v m) = (
    omega arith,
    All-append (λ c. c ≢ 0) (encode_text k) (encode v ++ encode_members m) (encode_text-HasNoNul k)
        (All-append (λ c. c ≢ 0) (encode v) (encode_members m) (encode-HasNoNul v)
          (encode_members-HasNoNul m)),
  )

-- What stands behind the value is not looked at.
at_end : Option (Tree × Text) → Option Tree
at_end none = none
at_end (some (v, r)) = some v

unfoldable pub read_tree : Text → Option Tree
unfolding at_end decode decode_text
read_tree s = at_end (decode (length s) s)

pub read_tree-encode : (v : Tree) (r : Text) → read_tree (encode v ++ r) ≡ some v
unfolding read_tree at_end
read_tree-encode v r =
    rw (decode-encode v (length (encode v ++ r)) r (omega (arith, length-append (encode v) r)))
