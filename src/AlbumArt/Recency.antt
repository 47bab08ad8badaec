-- ===== src/AlbumArt/Recency.antt =====
-- The covers in the order of their use.
use kdeconnect_nx.Prelude.{
  subst, length-take, ℕ, zero, suc, ◌≤◌, Text, true, false, List, [], ◌∷◌, ◌++◌, ◌≡◌, ◌≢◌, refl, ap,
  sym, ◌∙◌, arith, eq_text, eq_text_iff, is_empty, if◌then◌else◌, ltb, length, take, drop,
  Bool-cases, inl, inr, append-nil,
}
use kdeconnect_nx.AlbumArt.{
  Covers, contains, is_first, erase_first, back, pop_back, evict_one, evict, push, lru_touch,
}

-- The list without a hash.
abbrev pub without : Text → List Text → List Text
without hash [] = []
without hash (h ∷ hs) = if eq_text h hash then without hash hs else h ∷ without hash hs

abbrev pub IsDistinct : List Text → Type 0
IsDistinct [] = Unit
IsDistinct (h ∷ hs) = (contains h hs ≡ false) × IsDistinct hs

without_absent : (hash : Text) (hs : List Text) → contains hash hs ≡ false → without hash hs ≡ hs
without_absent hash [] h = refl
without_absent hash (x ∷ hs) h = ground (arith, without_absent hash hs)

erase_first_lem :
    (hash : Text) (hs : List Text) → IsDistinct hs → erase_first hash hs ≡ without hash hs
erase_first_lem hash [] d = refl
erase_first_lem hash (x ∷ hs) d =
    ground (arith, erase_first_lem hash hs d.1, without_absent hash hs, eq_text_iff x hash, d.0)

length-without : (hash : Text) (hs : List Text) → length (without hash hs) ≤ length hs
length-without hash [] = omega arith
length-without hash (x ∷ hs) = ground (arith, length-without hash hs)

pop_back-take : (h : Text) (hs : List Text) → pop_back h hs ≡ take (length hs) (h ∷ hs)
pop_back-take h [] = refl
pop_back-take h (x ∷ hs) = ap (◌∷◌ h) (pop_back-take x hs)

back-drop : (h : Text) (hs : List Text) → back h hs ∷ [] ≡ drop (length hs) (h ∷ hs)
back-drop h [] = refl
back-drop h (x ∷ hs) = back-drop x hs

take_all : (n : ℕ) (hs : List Text) → length hs ≤ n → take n hs ≡ hs
take_all zero [] b = refl
take_all zero (x ∷ hs) b = ground arith
take_all (suc n) [] b = refl
take_all (suc n) (x ∷ hs) b = ap (◌∷◌ x) (take_all n hs (omega arith))

drop_all : (n : ℕ) (hs : List Text) → length hs ≤ n → drop n hs ≡ []
drop_all zero [] b = refl
drop_all zero (x ∷ hs) b = ground arith
drop_all (suc n) [] b = refl
drop_all (suc n) (x ∷ hs) b = drop_all n hs (omega arith)

evict_done : (n : ℕ) (c : Covers) → length c.lru ≤ 10 → evict n c ≡ c
unfolding evict
evict_done zero c b = refl
evict_done (suc n) c b = ground arith

length-pop_back : (h : Text) (hs : List Text) → length (pop_back h hs) ≡ length hs
length-pop_back h [] = refl
length-pop_back h (x ∷ hs) = omega (arith, length-pop_back x hs)

evict_full :
    (n : ℕ) (hash : Text) (hs : List Text) (removed : List Text)
    → length hs ≡ 10
    → evict (suc n) (record { lru = hash ∷ hs; removed = removed })
      ≡ record { lru = pop_back hash hs; removed = removed ++ back hash hs ∷ [] }
unfolding evict evict_one
evict_full n hash hs removed full =
    let over : ltb 10 (suc (length hs)) ≡ true = ground arith in
    rw over (
      evict_done n (record { lru = pop_back hash hs; removed = removed ++ back hash hs ∷ [] })
        (omega (arith, length-pop_back hash hs)))

push_lem :
    (hash : Text) (hs : List Text) (c : Covers)
    → length hs ≤ 10
    → push hash hs c
      ≡ record { lru = take 10 (hash ∷ hs); removed = c.removed ++ drop 10 (hash ∷ hs) }
unfolding push
push_lem hash hs c b = elim (Bool-cases (ltb (length hs) 10)) [
  | inl room ↦
      let fits : length hs ≤ 9 = ground arith in
      evict_done (suc (length hs)) (record c { lru = hash ∷ hs }) (omega arith)
      ∙ rw (take_all 9 hs fits, drop_all 9 hs fits, append-nil c.removed)
  | inr none_left ↦
      let full : length hs ≡ 10 = ground arith in
      evict_full (length hs) hash hs c.removed full
      ∙ rw (pop_back-take hash hs, back-drop hash hs, full)
]

touch_first :
    (hash : Text) (l removed : List Text)
    → IsDistinct l
    → length l ≤ 10
    → is_first hash l ≡ true
    → ◌≡◌ {A = Covers}
        (record { lru = l; removed = removed })
        (record {
          lru = take 10 (hash ∷ without hash l);
          removed = removed ++ drop 10 (hash ∷ without hash l);
        })
touch_first hash [] removed d b first = ground arith
touch_first hash (h ∷ hs) removed d b first =
    let same : h ≡ hash = ground (arith, eq_text_iff h hash) in
    let absent : contains hash hs ≡ false = subst (λ k. contains k hs ≡ false) same d.0 in
    rw (
      first,
      without_absent hash hs absent,
      take_all 9 hs (omega arith),
      drop_all 9 hs (omega arith),
      append-nil removed,
      same,
    )

-- A cover that is used comes first, and the others keep their order; of at most eleven the last is
-- removed, so ten remain. For a list of at most ten distinct hashes, and a hash that is not empty.
pub lru_touch_lem :
    (hash : Text) (c : Covers)
    → hash ≢ []
    → length c.lru ≤ 10
    → IsDistinct c.lru
    → lru_touch hash c ≡ record {
      lru = take 10 (hash ∷ without hash c.lru);
      removed = c.removed ++ drop 10 (hash ∷ without hash c.lru);
    }
unfolding lru_touch
lru_touch_lem hash c named b d =
    let some_name : is_empty hash ≡ false = ground arith in
    let others : erase_first hash c.lru ≡ without hash c.lru = erase_first_lem hash c.lru d in
    elim (Bool-cases (contains hash c.lru)) [
      | inl known ↦ elim (Bool-cases (is_first hash c.lru)) [
        | inl first ↦ rw (some_name, known, first) (touch_first hash c.lru c.removed d b first)
        | inr later ↦
            rw (some_name, known, later, others)
              (push_lem hash (without hash c.lru) c (omega (arith, b, length-without hash c.lru)))
      ]
      | inr new ↦ rw (some_name, new, without_absent hash c.lru new) (push_lem hash c.lru c b)
    ]

contains-without_self : (hash : Text) (hs : List Text) → contains hash (without hash hs) ≡ false
contains-without_self hash [] = refl
contains-without_self hash (h ∷ hs) = ground (arith, contains-without_self hash hs)

contains-without :
    (k hash : Text) (hs : List Text) → contains k hs ≡ false → contains k (without hash hs) ≡ false
contains-without k hash [] e = refl
contains-without k hash (h ∷ hs) e = ground (arith, contains-without k hash hs)

IsDistinct-without : (hash : Text) (hs : List Text) → IsDistinct hs → IsDistinct (without hash hs)
IsDistinct-without hash [] d = tt
IsDistinct-without hash (h ∷ hs) d = elim (Bool-cases (eq_text h hash)) [
  | inl same ↦ rw same (IsDistinct-without hash hs d.1)
  | inr other ↦ rw other (contains-without h hash hs d.0, IsDistinct-without hash hs d.1)
]

contains-take :
    (k : Text) (n : ℕ) (hs : List Text) → contains k hs ≡ false → contains k (take n hs) ≡ false
contains-take k zero hs e = refl
contains-take k (suc n) [] e = refl
contains-take k (suc n) (h ∷ hs) e = ground (arith, contains-take k n hs)

IsDistinct-take : (n : ℕ) (hs : List Text) → IsDistinct hs → IsDistinct (take n hs)
IsDistinct-take zero hs d = tt
IsDistinct-take (suc n) [] d = tt
IsDistinct-take (suc n) (h ∷ hs) d = (contains-take h n hs d.0, IsDistinct-take n hs d.1)

abbrev pub IsKept : Covers → Type 0
IsKept c = (length c.lru ≤ 10) × IsDistinct c.lru

-- If at most ten covers are kept, none of them twice, then the same holds after the use of any hash.
pub lru_touch-IsKept : (hash : Text) (c : Covers) → IsKept c → IsKept (lru_touch hash c)
unfolding lru_touch
lru_touch-IsKept [] c h = h
lru_touch-IsKept (x ∷ xs) c h =
    let hash = x ∷ xs in
    let order = hash ∷ without hash c.lru in
    let distinct : IsDistinct order =
      (contains-without_self hash c.lru, IsDistinct-without hash c.lru h.1) in
    let named : hash ≢ [] = λ e. cc in
    subst IsKept (sym (lru_touch_lem hash c named h.0 h.1))
      (omega (arith, length-take 10 order), IsDistinct-take 10 order distinct)
