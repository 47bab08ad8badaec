-- ===== src/Prelude/Texts.antt =====
-- `std::string` and `const char*` as lists of bytes, their comparison, and maps keyed by them.
use Prim.Native.Char.{code}
use Prim.Native.String.{String}
use Prim.Native.Nat.{ℕ}
use mathlib.Core.Path.{◌≡◌, refl}
use mathlib.Core.Logic.{◌↔◌, ◌≢◌}
use mathlib.Core.Bool.{Bool, true, false, ◌&&◌}
use mathlib.Core.Option.{Option, none, some}
use mathlib.Core.List.{List, [], ◌∷◌, ◌++◌}
use native.Mathlib.Omega.{arith}
use kdeconnect_nx.Prelude.Tests.{◌==◌, if◌then◌else◌}
use kdeconnect_nx.Prelude.Lists.{All}

abbrev pub Text : Type 0
Text = List ℕ

-- The bytes of an ASCII literal.
unfoldable pub bytes : String → Text
bytes String.[] = []
bytes (String.◌∷◌ c s) = code c ∷ bytes s

unfoldable pub eq_text : Text → Text → Bool
eq_text [] [] = true
eq_text (x ∷ xs) (y ∷ ys) = x == y && eq_text xs ys
eq_text _ _ = false

pub eq_text_iff : (a b : Text) → (eq_text a b ≡ true) ↔ (a ≡ b)
unfolding eq_text
eq_text_iff (x ∷ a) (y ∷ b) = ground (arith, eq_text_iff a b)
eq_text_iff _ _ = ground arith

pub eq_text_refl : (a : Text) → eq_text a a ≡ true
eq_text_refl a = (eq_text_iff a a).1 refl

pub eq_text_ne : (a b : Text) → a ≢ b → eq_text a b ≡ false
eq_text_ne a b h = ground (arith, eq_text_iff a b)

pub eq_text_sym : (a b : Text) → eq_text a b ≡ eq_text b a
eq_text_sym a b = ground (arith, eq_text_iff a b, eq_text_iff b a)

-- `s.empty()`
abbrev pub is_empty {ℓ} : {A : Type ℓ} → List A → Bool
is_empty [] = true
is_empty (x ∷ xs) = false

pub concat_ne {ℓ} : {A : Type ℓ} (s : List A) (a : A) → is_empty (s ++ a ∷ []) ≡ false
concat_ne [] a = refl
concat_ne (x ∷ xs) a = refl

-- What a callee that takes a C string sees of `s.c_str()`: the bytes before the first NUL.
unfoldable pub c_str : Text → Text
c_str [] = []
c_str (c ∷ cs) = if c == 0 then [] else c ∷ c_str cs

abbrev pub HasNoNul : Text → Type 0
HasNoNul = All (λ c. c ≢ 0)

-- A text with no line end.
abbrev pub IsLine : Text → Type 0
IsLine = All (λ c. (c == b'\n') ≡ false)

pub c_str_lem : (s : Text) → HasNoNul s → c_str s ≡ s
unfolding c_str
c_str_lem [] h = refl
c_str_lem (c ∷ cs) h = ground (arith, c_str_lem cs h.1, h.0)

-- Maps as association lists: the first entry of a key counts.
module _ {ℓ} {V : Type ℓ} where
  unfoldable pub lookup : Text → List (Text × V) → Option V
  lookup k [] = none
  lookup k ((j, v) ∷ m) = if eq_text j k then some v else lookup k m

  unfoldable pub insert : Text → V → List (Text × V) → List (Text × V)
  insert k v [] = (k, v) ∷ []
  insert k v ((j, w) ∷ m) = if eq_text j k then (j, v) ∷ m else (j, w) ∷ insert k v m

  unfoldable pub erase : Text → List (Text × V) → List (Text × V)
  erase k [] = []
  erase k ((j, v) ∷ m) = if eq_text j k then erase k m else (j, v) ∷ erase k m

  pub lookup-insert :
      (k j : Text) (v : V) (m : List (Text × V))
      → lookup j (insert k v m) ≡ (if eq_text k j then some v else lookup j m)
  unfolding lookup insert
  lookup-insert k j v [] = refl
  lookup-insert k j v ((i, w) ∷ m) =
      ground (arith, eq_text_iff k j, eq_text_iff i k, eq_text_iff i j, lookup-insert k j v m)

  pub lookup-erase :
      (k j : Text) (m : List (Text × V))
      → lookup j (erase k m) ≡ (if eq_text k j then none else lookup j m)
  unfolding lookup erase
  lookup-erase k j [] = ground arith
  lookup-erase k j ((i, w) ∷ m) =
      ground (arith, eq_text_iff k j, eq_text_iff i k, eq_text_iff i j, lookup-erase k j m)

  pub lookup-append :
      (k : Text) (m n : List (Text × V))
      → lookup k (m ++ n) ≡ elim (lookup k m) [ some v ↦ some v | none ↦ lookup k n ]
  unfolding lookup
  lookup-append k [] n = refl
  lookup-append k ((i, w) ∷ m) n = ground (arith, lookup-append k m n)
