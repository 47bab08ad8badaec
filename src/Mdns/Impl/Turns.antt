-- ===== src/Mdns/Impl/Turns.antt =====
-- What the loop does over any number of turns.
use kdeconnect_nx.Prelude.{
  ℕ, ◌+◌, ◌≤◌, Text, false, Option, none, some, List, [], ◌∷◌, ◌++◌, ◌≡◌, refl, sym, ap, ◌∙◌, subst,
  leb→le, arith, leb, is_empty, eq_text, All, All-append, Bool-cases, inl, inr,
}
use kdeconnect_nx.Mdns.{
  AnnouncedInfo, Reply, silent, past_end, Question, service_callback, Seen, QueryState,
  no_query_state, query_recv, peer_found,
}
use kdeconnect_nx.Mdns.Impl.{
  Turn, Deed, queried, answered, overrun, found, k_query_repeat, answer_deed, found_deed, answers,
  finds, mdns_loop,
}

-- When queries were sent.
abbrev pub queries : List Deed → List ℕ
queries [] = []
queries (queried t ∷ ds) = t ∷ queries ds
queries (answered a ∷ ds) = queries ds
queries (overrun ∷ ds) = queries ds
queries (found id host ∷ ds) = queries ds

-- None is sent before its time, which is fifteen seconds after the one before.
abbrev pub IsSpaced : ℕ → List ℕ → Type 0
IsSpaced from [] = Unit
IsSpaced from (t ∷ ts) = (from ≤ t) × IsSpaced (t + k_query_repeat) ts

-- A peer that is called has an id, which is not this device's, and an address.
abbrev pub IsPeer : Text → Deed → Type 0
IsPeer local_id (queried t) = Unit
IsPeer local_id (answered a) = Unit
IsPeer local_id overrun = Unit
IsPeer local_id (found id host) =
    (is_empty id ≡ false) × (eq_text id local_id ≡ false) × (is_empty host ≡ false)

queries-append : (ds es : List Deed) → queries (ds ++ es) ≡ queries ds ++ queries es
queries-append [] es = refl
queries-append (queried t ∷ ds) es = ap (◌∷◌ t) (queries-append ds es)
queries-append (answered a ∷ ds) es = queries-append ds es
queries-append (overrun ∷ ds) es = queries-append ds es
queries-append (found id host ∷ ds) es = queries-append ds es

queries-answer_deed : (o : Reply) → queries (answer_deed o) ≡ []
unfolding answer_deed
queries-answer_deed silent = refl
queries-answer_deed past_end = refl
queries-answer_deed (Reply.answered a) = refl

queries-found_deed : (o : Option (Text × Text)) → queries (found_deed o) ≡ []
unfolding found_deed
queries-found_deed none = refl
queries-found_deed (some (id, host)) = refl

answer_deed-IsPeer : (local_id : Text) (o : Reply) → All (IsPeer local_id) (answer_deed o)
unfolding answer_deed
answer_deed-IsPeer local_id silent = tt
answer_deed-IsPeer local_id past_end = (tt, tt)
answer_deed-IsPeer local_id (Reply.answered a) = (tt, tt)

found_deed-IsPeer :
    (local_id : Text) (o : Option (Text × Text))
    → ((id host : Text) → o ≡ some (id, host) → IsPeer local_id (found id host))
    → All (IsPeer local_id) (found_deed o)
unfolding found_deed
found_deed-IsPeer local_id none h = tt
found_deed-IsPeer local_id (some (id, host)) h = (h id host refl, tt)

peer_found-IsPeer :
    (local_id : Text) (s : QueryState) (id host : Text)
    → peer_found local_id s ≡ some (id, host)
    → IsPeer local_id (found id host)
unfolding peer_found
peer_found-IsPeer local_id s id host h = ground arith

queries-answers : (self : AnnouncedInfo) (q : Option Question) → queries (answers self q) ≡ []
unfolding answers
queries-answers self none = refl
queries-answers self (some q) = queries-answer_deed (service_callback self q)

answers-IsPeer :
    (self : AnnouncedInfo) (local_id : Text) (q : Option Question)
    → All (IsPeer local_id) (answers self q)
unfolding answers
answers-IsPeer self local_id none = tt
answers-IsPeer self local_id (some q) = answer_deed-IsPeer local_id (service_callback self q)

module _ (ipv4_to_string : ℕ → Text) (self : AnnouncedInfo) (local_id : Text) where
  queries-finds :
      (records : Option (List Seen)) → queries (finds ipv4_to_string self local_id records) ≡ []
  unfolding finds
  queries-finds none = refl
  queries-finds (some records) = queries-found_deed _

  finds-IsPeer :
      (records : Option (List Seen))
      → All (IsPeer local_id) (finds ipv4_to_string self local_id records)
  unfolding finds
  finds-IsPeer none = tt
  finds-IsPeer (some records) =
      found_deed-IsPeer local_id _
        (peer_found-IsPeer local_id (query_recv ipv4_to_string records no_query_state))

  -- Answers and calls of peers leave the queries of the rest as they are.
  queries-turn :
      (t : Turn) (rest : List Deed)
      → queries (answers self t.question ++ (finds ipv4_to_string self local_id t.datagram ++ rest))
        ≡ queries rest
  queries-turn t rest =
      queries-append (answers self t.question) _
      ∙ (ap (λ o. o ++ queries (finds ipv4_to_string self local_id t.datagram ++ rest))
            (queries-answers self t.question)
          ∙ (queries-append (finds ipv4_to_string self local_id t.datagram) rest
              ∙ ap (λ o. o ++ queries rest) (queries-finds t.datagram)))

  turn-IsPeer :
      (t : Turn) (rest : List Deed)
      → All (IsPeer local_id) rest
      → All
          (IsPeer local_id)
          (answers self t.question ++ (finds ipv4_to_string self local_id t.datagram ++ rest))
  turn-IsPeer t rest h =
      All-append (IsPeer local_id) (answers self t.question) _
        (answers-IsPeer self local_id t.question)
        (All-append (IsPeer local_id) (finds ipv4_to_string self local_id t.datagram) rest
          (finds-IsPeer t.datagram) h)

  -- In any number of turns, whatever the clock shows and the network sends, two queries are at least
  -- fifteen seconds apart, and who is called is another device with an id and an address.
  pub mdns_loop-IsSpaced :
      (next_query : ℕ) (ts : List Turn)
      → IsSpaced next_query (queries (mdns_loop ipv4_to_string self local_id next_query ts))
        × All (IsPeer local_id) (mdns_loop ipv4_to_string self local_id next_query ts)
  unfolding mdns_loop
  mdns_loop-IsSpaced next_query [] = (tt, tt)
  mdns_loop-IsSpaced next_query (t ∷ ts) = elim (Bool-cases t.still_running) [
    | inr over ↦ rw over (tt, tt)
    | inl on ↦ elim (Bool-cases (leb next_query t.now)) [
      | inl due ↦
          let (spaced, peers) = mdns_loop-IsSpaced (t.now + k_query_repeat) ts in
          rw (on, due)
            (
              (
                leb→le next_query t.now due,
                subst (IsSpaced (t.now + k_query_repeat)) (sym (queries-turn t _)) spaced,
              ),
              (tt, turn-IsPeer t _ peers),
            )
      | inr early ↦
          let (spaced, peers) = mdns_loop-IsSpaced next_query ts in
          rw (on, early)
            (subst (IsSpaced next_query) (sym (queries-turn t _)) spaced, turn-IsPeer t _ peers)
    ]
  ]
