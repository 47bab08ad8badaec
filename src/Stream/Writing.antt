-- ===== src/Stream/Writing.antt =====
-- What the peer has of a text that was sent.
use kdeconnect_nx.Prelude.{
  Text, List, [], ◌∷◌, ◌++◌, ◌≡◌, refl, ap, ◌∙◌, subst, leb, take, drop, take-append-drop,
  append_assoc, Bool-cases, inl, inr,
}
use kdeconnect_nx.Stream.{Write, wrote, Sent, sent, gave_up, pending, taken, send_all_tls}

-- All of the text, or a first part of it.
abbrev pub IsPartOf : Text → Sent → Type 0
IsPartOf data_ (sent t) = t ≡ data_
IsPartOf data_ (gave_up t) = (rest : Text) × (t ++ rest ≡ data_)
IsPartOf data_ (pending t) = (rest : Text) × (t ++ rest ≡ data_)

taken-IsPartOf : (a b : Text) (s : Sent) → IsPartOf b s → IsPartOf (a ++ b) (taken a s)
taken-IsPartOf a b (sent t) h = ap (◌++◌ a) h
taken-IsPartOf a b (gave_up t) h = (h.0, append_assoc a t h.0 ∙ ap (◌++◌ a) h.1)
taken-IsPartOf a b (pending t) h = (h.0, append_assoc a t h.0 ∙ ap (◌++◌ a) h.1)

-- Whatever the session answers to the writes, what it has taken is a first part of the text, in order
-- and without a gap, and where the loop reports success it is the whole text.
pub send_all_tls-IsPartOf : (t : Text) (es : List Write) → IsPartOf t (send_all_tls t es)
unfolding send_all_tls
send_all_tls-IsPartOf [] es = refl
send_all_tls-IsPartOf (c ∷ cs) [] = (c ∷ cs, refl)
send_all_tls-IsPartOf (c ∷ cs) (wrote n ∷ es) = elim (Bool-cases (leb n 0)) [
  | inl none_taken ↦ rw none_taken (c ∷ cs, refl)
  | inr some_taken ↦ rw some_taken (
      subst (λ u. IsPartOf u (taken (take n (c ∷ cs)) (send_all_tls (drop n (c ∷ cs)) es)))
        (take-append-drop n (c ∷ cs))
        (taken-IsPartOf (take n (c ∷ cs)) (drop n (c ∷ cs)) (send_all_tls (drop n (c ∷ cs)) es)
          (send_all_tls-IsPartOf (drop n (c ∷ cs)) es)))
]
send_all_tls-IsPartOf (c ∷ cs) (Write.retry ∷ es) = send_all_tls-IsPartOf (c ∷ cs) es
send_all_tls-IsPartOf (c ∷ cs) (Write.failed ∷ es) = (c ∷ cs, refl)
