-- ===== src/Plugins/Share/Urls.antt =====
-- The addresses that wait to be opened.
use kdeconnect_nx.Prelude.{
  Text, List, [], ◌∷◌, ◌++◌, ◌≡◌, refl, sym, ap, ◌∙◌, append-nil, append_assoc,
}
use kdeconnect_nx.Plugins.Share.{pop, push_url}

-- The addresses after the pushes of some more.
abbrev pub push_urls : List Text → List Text → List Text
push_urls [] us = us
push_urls (new ∷ news) us = push_urls news (push_url new us)

-- The last two.
abbrev pub last_two : List Text → List Text
last_two [] = []
last_two (a ∷ []) = a ∷ []
last_two (a ∷ b ∷ []) = a ∷ b ∷ []
last_two (a ∷ b ∷ c ∷ us) = last_two (b ∷ c ∷ us)

push_url-last_two : (u : Text) (us : List Text) → push_url u (last_two us) ≡ last_two (us ++ u ∷ [])
unfolding push_url pop
push_url-last_two u [] = refl
push_url-last_two u (a ∷ []) = refl
push_url-last_two u (a ∷ b ∷ []) = refl
push_url-last_two u (a ∷ b ∷ c ∷ us) = push_url-last_two u (b ∷ c ∷ us)

-- Whatever is shared, the queue holds the last two addresses, in the order in which they came.
pub push_urls-last_two :
    (news us : List Text) → push_urls news (last_two us) ≡ last_two (us ++ news)
push_urls-last_two [] us = ap last_two (sym (append-nil us))
push_urls-last_two (u ∷ news) us =
    ap (push_urls news) (push_url-last_two u us)
    ∙ push_urls-last_two news (us ++ u ∷ [])
    ∙ ap last_two (append_assoc us (u ∷ []) news)
