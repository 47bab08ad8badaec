-- ===== src/Json/Yyjson.antt =====
-- The part of yyjson's mutable interface that json_body.cpp calls. yyjson is fetched by the build and
-- is not in the repository, so it is a parameter: its values, its functions, and what its
-- documentation says of them. Two numbers that every accessor reads alike are one value here.
use kdeconnect_nx.Prelude.{
  Text, Bool, true, false, Option, none, some, List, [], ◌∷◌, ◌++◌, ◌≡◌, HasNoNul, IsLine, lookup,
  erase,
}
use kdeconnect_nx.Prelude.Int.{ℤ, IsInt32, IsInt64}

pub record Yyjson : Type 1 where
  pub Val : Type 0
  -- Objects and arrays, with what the iterators hand out.
  pub mut_obj : Val
  pub members : Val → List (Text × Val)
  pub obj_get : Val → Text → Option Val
  pub obj_remove_str : Val → Text → Val
  pub obj_add : Val → Text → Val → Val
  pub mut_arr : List Val → Val
  pub items : Val → List Val
  -- `yyjson_mut_bool`, `_int`, `_sint`, `_strcpy`; the last copies a C string.
  pub mut_bool : Bool → Val
  pub mut_int : ℤ → Val
  pub mut_sint : ℤ → Val
  pub mut_strcpy : Text → Val
  pub is_obj : Val → Bool
  pub is_arr : Val → Bool
  pub is_str : Val → Bool
  pub is_num : Val → Bool
  pub is_int : Val → Bool
  pub is_bool : Val → Bool
  pub get_bool : Val → Bool
  pub get_int : Val → ℤ
  pub get_sint : Val → ℤ
  pub get_str : Val → Text
  -- `yyjson_read` on a text with no NUL, and `yyjson_mut_write`, whose flag asks for indentation.
  pub read : Text → Option Val
  pub write : Bool → Val → Option Text
  pub is_obj-mut_obj : is_obj mut_obj ≡ true
  pub is_obj-remove : (v : Val) (k : Text) → is_obj v ≡ true → is_obj (obj_remove_str v k) ≡ true
  pub is_obj-add : (v : Val) (k : Text) (x : Val) → is_obj v ≡ true → is_obj (obj_add v k x) ≡ true
  pub members-mut_obj : members mut_obj ≡ []
  pub members-remove :
      (v : Val) (k : Text) → is_obj v ≡ true → members (obj_remove_str v k) ≡ erase k (members v)
  pub members-add :
      (v : Val) (k : Text) (x : Val)
      → is_obj v ≡ true
      → members (obj_add v k x) ≡ members v ++ (k, x) ∷ []
  pub obj_get-members : (v : Val) (k : Text) → is_obj v ≡ true → obj_get v k ≡ lookup k (members v)
  pub is_arr-mut_arr : (vs : List Val) → is_arr (mut_arr vs) ≡ true
  pub items-mut_arr : (vs : List Val) → items (mut_arr vs) ≡ vs
  pub is_bool-mut_bool : (b : Bool) → is_bool (mut_bool b) ≡ true
  pub get_bool-mut_bool : (b : Bool) → get_bool (mut_bool b) ≡ b
  pub is_num-mut_int : (n : ℤ) → is_num (mut_int n) ≡ true
  pub is_int-mut_int : (n : ℤ) → is_int (mut_int n) ≡ true
  pub get_int-mut_int : (n : ℤ) → IsInt32 n → get_int (mut_int n) ≡ n
  pub is_num-mut_sint : (n : ℤ) → is_num (mut_sint n) ≡ true
  pub get_sint-mut_sint : (n : ℤ) → IsInt64 n → get_sint (mut_sint n) ≡ n
  pub is_str-mut_strcpy : (s : Text) → is_str (mut_strcpy s) ≡ true
  pub get_str-mut_strcpy : (s : Text) → get_str (mut_strcpy s) ≡ s
  -- What is written has no NUL, and no line end unless it is indented. It is read back, also with a
  -- line end behind it, and is not empty.
  pub write-HasNoNul : (pretty : Bool) (v : Val) {s : Text} → write pretty v ≡ some s → HasNoNul s
  pub write-IsLine : (v : Val) {s : Text} → write false v ≡ some s → IsLine s
  pub write-read : (pretty : Bool) (v : Val) {s : Text} → write pretty v ≡ some s → read s ≡ some v
  pub write-read_line :
      (pretty : Bool) (v : Val) {s : Text}
      → write pretty v ≡ some s
      → read (s ++ b'\n' ∷ []) ≡ some v
  pub read-nil : read [] ≡ none
