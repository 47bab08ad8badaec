-- ===== src/Plugins/Registry/Types.antt =====
-- Each packet has at most one plugin.
use kdeconnect_nx.Prelude.{
  ℕ, suc, ◌+◌, ◌≤◌, Text, bytes, Bool, true, false, ◌||◌, List, [], ◌∷◌, ◌++◌, ◌≡◌, refl, arith,
  subst, if◌then◌else◌, eq_text, eq_text_iff, Bool-cases, inl, inr,
}
use kdeconnect_nx.Plugins.Registry.{
  PluginClass, supported_packet_types, instantiate_plugins, all_types,
}

-- Whether the text is one of the list, and how often.
abbrev pub has : Text → List Text → Bool
has t [] = false
has t (u ∷ us) = eq_text u t || has t us

abbrev pub count : Text → List Text → ℕ
count t [] = 0
count t (u ∷ us) = if eq_text u t then suc (count t us) else count t us

abbrev AreDistinct : List Text → Type 0
AreDistinct [] = Unit
AreDistinct (t ∷ ts) = (has t ts ≡ false) × AreDistinct ts

count_none : (t : Text) (us : List Text) → has t us ≡ false → count t us ≡ 0
count_none t [] h = refl
count_none t (u ∷ us) h = ground (arith, h, count_none t us)

count_distinct : (t : Text) (us : List Text) → AreDistinct us → count t us ≤ 1
count_distinct t [] h = omega arith
count_distinct t (u ∷ us) h = elim (Bool-cases (eq_text u t)) [
  | inl same ↦
      let once : count t us ≡ 0 =
        count_none t us (subst (λ s. has s us ≡ false) ((eq_text_iff u t).0 same) h.0) in
      rw (same, once) (omega arith)
  | inr other ↦ rw other (count_distinct t us h.1)
]

-- The plugins that take packets of a type.
abbrev pub takers : Text → List PluginClass → List PluginClass
takers t [] = []
takers t (p ∷ ps) = if has t (supported_packet_types p) then p ∷ takers t ps else takers t ps

abbrev pub number : List PluginClass → ℕ
number [] = 0
number (p ∷ ps) = suc (number ps)

count-append : (t : Text) (us vs : List Text) → count t (us ++ vs) ≡ count t us + count t vs
count-append t [] vs = omega arith
count-append t (u ∷ us) vs = ground (arith, count-append t us vs)

count_some : (t : Text) (us : List Text) → has t us ≡ true → 1 ≤ count t us
count_some t [] h = absurd (cc)
count_some t (u ∷ us) h = ground (arith, h, count_some t us)

takers-count :
    (t : Text) (ps : List PluginClass)
    → number (takers t ps) ≤ count t (all_types supported_packet_types ps)
unfolding all_types
takers-count t [] = omega arith
takers-count t (p ∷ ps) =
    let split = count-append t (supported_packet_types p) (all_types supported_packet_types ps) in
    elim (Bool-cases (has t (supported_packet_types p))) [
      | inl takes ↦
          rw takes
            (omega (arith, split, takers-count t ps, count_some t (supported_packet_types p) takes))
      | inr leaves ↦ rw leaves (omega (arith, split, takers-count t ps))
    ]

types-AreDistinct : AreDistinct (all_types supported_packet_types instantiate_plugins)
unfolding all_types supported_packet_types eq_text bytes
types-AreDistinct = (
  refl,
  (refl, (refl, (refl, (refl, (refl, (refl, (refl, (refl, (refl, (refl, (refl, tt))))))))))),
)

-- Whatever the type of a packet, at most one of the plugins takes it.
pub takers-at_most_one : (t : Text) → number (takers t instantiate_plugins) ≤ 1
takers-at_most_one t = omega (
  arith,
  takers-count t instantiate_plugins,
  count_distinct t (all_types supported_packet_types instantiate_plugins) types-AreDistinct,
)
