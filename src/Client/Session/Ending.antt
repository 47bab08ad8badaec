-- ===== src/Client/Session/Ending.antt =====
-- What the loop of a session sends when a send fails, and in a turn in which none fails.
use kdeconnect_nx.Prelude.{
  ℕ, suc, Text, Bool, true, false, not, ◌||◌, List, [], ◌∷◌, ◌++◌, ◌≡◌, ◌⊎◌, refl, arith, map,
  Bool-cases, inl, inr, All,
}
use kdeconnect_nx.Json.Yyjson.{Yyjson}
use kdeconnect_nx.Client.State.{PluginHost, Client}
use kdeconnect_nx.Client.Session.{Next-cases, goes_on, Turn, drain_sends, io_step, io_loop}

abbrev IsSent : Text × Bool → Type 0
IsSent call = call.1 ≡ true

-- No call follows one that failed.
abbrev pub NoneAfterFailure : List (Text × Bool) → Type 0
NoneAfterFailure [] = Unit
NoneAfterFailure (call ∷ calls) = (IsSent call × NoneAfterFailure calls) ⊎ (calls ≡ [])

NoneAfterFailure-append :
    (a b : List (Text × Bool)) → All IsSent a → NoneAfterFailure b → NoneAfterFailure (a ++ b)
NoneAfterFailure-append [] b ok n = n
NoneAfterFailure-append (call ∷ a) b ok n = inl (ok.0, NoneAfterFailure-append a b ok.1 n)

-- Where the loop is to go on, all calls have succeeded.
drain_sends-IsSent :
    (d : Bool) (sends : ℕ → Bool) (q : List Text)
    → (drain_sends d sends q).2 ≡ true
    → All IsSent (drain_sends d sends q).0
unfolding drain_sends
drain_sends-IsSent d sends [] ok = tt
drain_sends-IsSent true sends (p ∷ q) ok = tt
drain_sends-IsSent false sends (p ∷ q) ok = elim (Bool-cases (sends 0)) [
  | inl good ↦
      rw good (refl, drain_sends-IsSent false (λ n. sends (suc n)) q (ground (arith, ok, good)))
  | inr bad ↦ absurd (ground (arith, ok, bad))
]

drain_sends-NoneAfterFailure :
    (d : Bool) (sends : ℕ → Bool) (q : List Text) → NoneAfterFailure (drain_sends d sends q).0
unfolding drain_sends
drain_sends-NoneAfterFailure d sends [] = tt
drain_sends-NoneAfterFailure true sends (p ∷ q) = tt
drain_sends-NoneAfterFailure false sends (p ∷ q) = elim (Bool-cases (sends 0)) [
  | inl good ↦ rw good (inl (refl, drain_sends-NoneAfterFailure false (λ n. sends (suc n)) q))
  | inr bad ↦ rw bad (inr refl)
]

-- With a connected peer that takes all, the whole queue is sent.
drain_sends-flushes :
    (sends : ℕ → Bool) (q : List Text)
    → ((n : ℕ) → sends n ≡ true)
    → drain_sends false sends q ≡ (map (λ p. (p, true)) q, [], true)
unfolding drain_sends
drain_sends-flushes sends [] ok = refl
drain_sends-flushes sends (p ∷ q) ok =
    rw (drain_sends-flushes (λ n. sends (suc n)) q (λ n. ok (suc n)), ok 0)

module _ (y : Yyjson) (host : PluginHost y) (sha256_hex_upper : Text → Text) (base : Text) where
  open host use {Plugin}

  io_step-NoneAfterFailure :
      (h : ℕ) (t : Turn Plugin) (c : Client Plugin)
      → NoneAfterFailure (io_step y host sha256_hex_upper base h t c).1
        × ((io_step y host sha256_hex_upper base h t c).2 ≡ goes_on
            → All IsSent (io_step y host sha256_hex_upper base h t c).1)
  unfolding io_step
  io_step-NoneAfterFailure h t c =
      let s = (t.elsewhere c).heap h in
      let drained = drain_sends s.disconnected t.sends s.send_queue in
      let none_after = drain_sends-NoneAfterFailure s.disconnected t.sends s.send_queue in
      elim (Bool-cases (not t.running || s.disconnected)) [
        | inl stop ↦ rw stop (tt, λ e. tt)
        | inr on ↦ elim (Bool-cases (not (drained.2) || not s.fd_open)) [
          | inl failed ↦ rw (on, failed) (none_after, λ e. absurd (ground (arith, e)))
          | inr fine ↦
              rw (on, fine)
                (
                  none_after,
                  λ e.
                      drain_sends-IsSent s.disconnected t.sends s.send_queue (ground (arith, fine)),
                )
        ]
      ]

  -- After a send that failed nothing more is handed to `send_all_tls`, in any number of turns.
  pub io_loop-NoneAfterFailure :
      (h : ℕ) (ts : List (Turn Plugin)) (c : Client Plugin)
      → NoneAfterFailure (io_loop y host sha256_hex_upper base h ts c).1
  unfolding io_loop
  io_loop-NoneAfterFailure h [] c = tt
  io_loop-NoneAfterFailure h (t ∷ ts) c =
      let step = io_step y host sha256_hex_upper base h t c in
      let rest = io_loop y host sha256_hex_upper base h ts step.0 in
      let one = io_step-NoneAfterFailure h t c in
      elim (Next-cases step.2) [
        | inl on ↦ rw on (
            NoneAfterFailure-append step.1 rest.1 (one.1 on) (io_loop-NoneAfterFailure h ts step.0))
        | inr (inl end) ↦ rw end one.0
        | inr (inr wait) ↦ rw wait one.0
      ]

  -- One turn of a running, connected loop hands all that waits to `send_all_tls`, in the order of the
  -- queue, where each of these calls succeeds.
  pub io_step-flushes :
      (h : ℕ) (t : Turn Plugin) (c : Client Plugin)
      → t.running ≡ true
      → ((t.elsewhere c).heap h).disconnected ≡ false
      → ((t.elsewhere c).heap h).fd_open ≡ true
      → ((n : ℕ) → t.sends n ≡ true)
      → (io_step y host sha256_hex_upper base h t c).1
        ≡ map (λ p. (p, true)) ((t.elsewhere c).heap h).send_queue
  unfolding io_step
  io_step-flushes h t c running connected opened ok =
      let q = ((t.elsewhere c).heap h).send_queue in
      rw (running, connected, opened, drain_sends-flushes t.sends q ok)
