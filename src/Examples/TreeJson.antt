-- ===== src/Examples/TreeJson.antt =====
-- A value of `Yyjson` over the trees. It stands for no code of the repository; the examples run the
-- program with it.
use kdeconnect_nx.Prelude.{
  IsLine, ltb, leb, ◌+◌, ◌-◌, if◌then◌else◌, arith, subst, Text, Bool, true, false, Option, none,
  some, List, [], ◌∷◌, ◌++◌, ◌≡◌, refl, sym, ap, ◌∙◌, lookup, erase, HasNoNul, append-nil,
}
use kdeconnect_nx.Prelude.Int.{ℤ, pos, wrap32, wrap64, wrap32_lem, wrap64_lem}
use kdeconnect_nx.Json.Yyjson.{Yyjson}
use kdeconnect_nx.Examples.Tree.{
  Tree, Members, bool, num, str, arr, obj, nil, member, to_list, of_list, to_list-of_list, encode,
  encode-HasNoNul, read_tree, read_tree-encode,
}

abbrev pub fields : Tree → List (Text × Tree)
fields (obj m) = to_list m
fields (arr m) = to_list m
fields _ = []

abbrev pub remove : Tree → Text → Tree
remove (obj m) k = obj (of_list (erase k (to_list m)))
remove v k = v

abbrev pub add : Tree → Text → Tree → Tree
add (obj m) k x = obj (of_list (to_list m ++ (k, x) ∷ []))
add v k x = v

abbrev pub values : Members → List Tree
values nil = []
values (member k v m) = v ∷ values m

abbrev pub elements : List Tree → Members
elements [] = nil
elements (v ∷ vs) = member [] v (elements vs)

pub values-elements : (vs : List Tree) → values (elements vs) ≡ vs
values-elements [] = refl
values-elements (v ∷ vs) = ap (◌∷◌ v) (values-elements vs)

abbrev pub entries : Tree → List Tree
entries (arr m) = values m
entries _ = []

abbrev pub tests_obj : Tree → Bool
tests_obj (obj m) = true
tests_obj _ = false

abbrev pub tests_arr : Tree → Bool
tests_arr (arr m) = true
tests_arr _ = false

abbrev pub tests_str : Tree → Bool
tests_str (str t) = true
tests_str _ = false

abbrev pub tests_num : Tree → Bool
tests_num (num z) = true
tests_num _ = false

abbrev pub tests_bool : Tree → Bool
tests_bool (bool b) = true
tests_bool _ = false

abbrev pub of_bool : Tree → Bool
of_bool (bool b) = b
of_bool _ = false

abbrev pub of_num : (ℤ → ℤ) → Tree → ℤ
of_num w (num z) = w z
of_num w _ = pos 0

abbrev pub of_str : Tree → Text
of_str (str t) = t
of_str _ = []

text_of : {a b : Text} → ◌≡◌ {A = Option Text} (some a) (some b) → a ≡ b
text_of w = cc

-- No byte of the printed text is a line end: the bytes from 10 on are moved up by one.
abbrev pub print_bytes : Text → Text
print_bytes [] = []
print_bytes (c ∷ cs) = (if ltb c 10 then c else c + 1) ∷ print_bytes cs

abbrev pub read_bytes : Text → Text
read_bytes [] = []
read_bytes (c ∷ cs) = (if leb c 10 then c else c - 1) ∷ read_bytes cs

abbrev pub print_tree : Tree → Text
print_tree v = print_bytes (encode v)

abbrev pub parse_tree : Text → Option Tree
parse_tree s = read_tree (read_bytes s)

print_bytes-IsLine : (t : Text) → IsLine (print_bytes t)
print_bytes-IsLine [] = tt
print_bytes-IsLine (c ∷ cs) = (ground arith, print_bytes-IsLine cs)

print_bytes-HasNoNul : (t : Text) → HasNoNul t → HasNoNul (print_bytes t)
print_bytes-HasNoNul [] h = tt
print_bytes-HasNoNul (c ∷ cs) h = (ground arith, print_bytes-HasNoNul cs h.1)

read-print_bytes : (t r : Text) → read_bytes (print_bytes t ++ r) ≡ t ++ read_bytes r
read-print_bytes [] r = refl
read-print_bytes (c ∷ cs) r =
    let same : (if leb (if ltb c 10 then c else c + 1) 10
          then (if ltb c 10 then c else c + 1)
          else (if ltb c 10 then c else c + 1) - 1)
        ≡ c =
      ground arith in
    rw (same, read-print_bytes cs r)

parse-print_tree : (v : Tree) (r : Text) → parse_tree (print_tree v ++ r) ≡ some v
parse-print_tree v r = rw (read-print_bytes (encode v) r) (read_tree-encode v (read_bytes r))

pub print_tree-IsLine :
    (v : Tree) {s : Text} → ◌≡◌ {A = Option Text} (some (print_tree v)) (some s) → IsLine s
print_tree-IsLine v w = subst IsLine (text_of w) (print_bytes-IsLine (encode v))

pub print_tree-HasNoNul :
    (pretty : Bool) (v : Tree) {s : Text}
    → ◌≡◌ {A = Option Text} (some (print_tree v)) (some s)
    → HasNoNul s
print_tree-HasNoNul pretty v w =
    subst HasNoNul (text_of w) (print_bytes-HasNoNul (encode v) (encode-HasNoNul v))

pub write-read_tree :
    (pretty : Bool) (v : Tree) {s : Text}
    → ◌≡◌ {A = Option Text} (some (print_tree v)) (some s)
    → parse_tree s ≡ some v
write-read_tree pretty v w =
    subst (λ t. parse_tree t ≡ some v) (text_of w)
      (ap parse_tree (sym (append-nil (print_tree v))) ∙ parse-print_tree v [])

pub write-read_tree_line :
    (pretty : Bool) (v : Tree) {s : Text}
    → ◌≡◌ {A = Option Text} (some (print_tree v)) (some s)
    → parse_tree (s ++ b'\n' ∷ []) ≡ some v
write-read_tree_line pretty v w =
    subst (λ t. parse_tree (t ++ b'\n' ∷ []) ≡ some v) (text_of w) (parse-print_tree v (b'\n' ∷ []))

pub read_tree-nil : read_tree [] ≡ none
unfolding read_tree
read_tree-nil = refl

pub remove_obj : (v : Tree) (k : Text) → tests_obj v ≡ true → tests_obj (remove v k) ≡ true
remove_obj (obj m) k h = refl
remove_obj _ k h = h

pub add_obj : (v : Tree) (k : Text) (x : Tree) → tests_obj v ≡ true → tests_obj (add v k x) ≡ true
add_obj (obj m) k x h = refl
add_obj _ k x h = h

pub fields-remove :
    (v : Tree) (k : Text) → tests_obj v ≡ true → fields (remove v k) ≡ erase k (fields v)
fields-remove (obj m) k h = to_list-of_list _
fields-remove (arr m) k h = cc
fields-remove _ k h = cc

pub fields-add :
    (v : Tree) (k : Text) (x : Tree)
    → tests_obj v ≡ true
    → fields (add v k x) ≡ fields v ++ (k, x) ∷ []
fields-add (obj m) k x h = to_list-of_list _
fields-add (arr m) k x h = cc
fields-add _ k x h = cc

abbrev pub tree_json : Yyjson
tree_json = record {
  Val = Tree;
  mut_obj = obj nil;
  members = fields;
  obj_get = λ v k. lookup k (fields v);
  obj_remove_str = remove;
  obj_add = add;
  mut_arr = λ vs. arr (elements vs);
  items = entries;
  mut_bool = bool;
  mut_int = num;
  mut_sint = num;
  mut_strcpy = str;
  is_obj = tests_obj;
  is_arr = tests_arr;
  is_str = tests_str;
  is_num = tests_num;
  is_int = tests_num;
  is_bool = tests_bool;
  get_bool = of_bool;
  get_int = of_num wrap32;
  get_sint = of_num wrap64;
  get_str = of_str;
  read = parse_tree;
  write = λ pretty v. some (print_tree v);
  is_obj-mut_obj = refl;
  is_obj-remove = remove_obj;
  is_obj-add = add_obj;
  members-mut_obj = refl;
  members-remove = fields-remove;
  members-add = fields-add;
  obj_get-members = λ v k h. refl;
  is_arr-mut_arr = λ vs. refl;
  items-mut_arr = values-elements;
  is_bool-mut_bool = λ b. refl;
  get_bool-mut_bool = λ b. refl;
  is_num-mut_int = λ n. refl;
  is_int-mut_int = λ n. refl;
  get_int-mut_int = wrap32_lem;
  is_num-mut_sint = λ n. refl;
  get_sint-mut_sint = wrap64_lem;
  is_str-mut_strcpy = λ s. refl;
  get_str-mut_strcpy = λ s. refl;
  write-HasNoNul = print_tree-HasNoNul;
  write-IsLine = print_tree-IsLine;
  write-read = write-read_tree;
  write-read_line = write-read_tree_line;
  read-nil = read_tree-nil;
}
