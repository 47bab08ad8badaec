-- ===== src/Client/Session/Order.antt =====
-- What the loop of a session sends, in which order, and when it ends.
use kdeconnect_nx.Prelude.{
  ℕ, suc, Text, Bool, not, ◌||◌, ◌&&◌, if◌then◌else◌, drop, length, none, some, List, [], ◌∷◌, ◌++◌,
  ◌≡◌, refl, sym, ap, ◌∙◌, arith, Bool-cases, inl, inr, append-nil, append_assoc, All,
}
use kdeconnect_nx.Json.Yyjson.{Yyjson}
use kdeconnect_nx.Client.State.{PluginHost, Client, Now, update}
use kdeconnect_nx.Client.Queues.{Appends, Appends-same, Appends-handle_packet}
use kdeconnect_nx.Client.Session.{
  Select, interrupted, broken, idle, readable, stuck, Next-cases, by_next, Turn, drain_sends,
  set_queue, close_session, on_select, io_step, io_loop,
}

abbrev pub payloads : List (Text × Bool) → List Text
payloads [] = []
payloads (call ∷ calls) = call.0 ∷ payloads calls

payloads-append : (a b : List (Text × Bool)) → payloads (a ++ b) ≡ payloads a ++ payloads b
payloads-append [] b = refl
payloads-append (call ∷ a) b = ap (◌∷◌ call.0) (payloads-append a b)

drain_sends-order :
    (d : Bool) (sends : ℕ → Bool) (q : List Text)
    → payloads (drain_sends d sends q).0 ++ (drain_sends d sends q).1 ≡ q
unfolding drain_sends
drain_sends-order d sends [] = refl
drain_sends-order d sends (p ∷ q) = ground (arith, drain_sends-order d (λ n. sends (suc n)) q)

-- What was handed over and what is left is the queue of session `k` before with what was appended.
abbrev pub Keeps : {P : Type 0} → ℕ → Client P → Client P → List (Text × Bool) → List Text → Type 0
Keeps k c c' calls new = payloads calls ++ (c'.heap k).send_queue ≡ (c.heap k).send_queue ++ new

-- What the queue of session `k` has behind the length that it had.
abbrev pub added : {P : Type 0} → ℕ → Client P → Client P → List Text
added k a b = drop (length (a.heap k).send_queue) (b.heap k).send_queue

drop-append : (a b : List Text) → drop (length a) (a ++ b) ≡ b
drop-append [] b = refl
drop-append (x ∷ a) b = drop-append a b

added_lem :
    {P : Type 0} (k : ℕ) (a b : Client P)
    → Appends k a b
    → (b.heap k).send_queue ≡ (a.heap k).send_queue ++ added k a b
added_lem k a b (new, e) =
    e
    ∙ ap (λ q. (a.heap k).send_queue ++ q)
        (sym (ap (drop (length (a.heap k).send_queue)) e ∙ drop-append (a.heap k).send_queue new))

-- What another thread does to the queue of a session is to append.
abbrev pub OnlyAppends : {P : Type 0} → ℕ → Turn P → Type 0
OnlyAppends h t = (c : _) → Appends h c (t.elsewhere c)

Keeps-after :
    {P : Type 0} (k : ℕ) (a b c d : Client P) (calls : List (Text × Bool)) (f g : List Text)
    → (b.heap k).send_queue ≡ (a.heap k).send_queue ++ f
    → payloads calls ++ (c.heap k).send_queue ≡ (b.heap k).send_queue
    → (d.heap k).send_queue ≡ (c.heap k).send_queue ++ g
    → Keeps k a d calls (f ++ g)
Keeps-after k a b c d calls f g fe e ge =
    ap (λ q. payloads calls ++ q) ge
    ∙ sym (append_assoc (payloads calls) (c.heap k).send_queue g)
    ∙ ap (λ q. q ++ g) (e ∙ fe)
    ∙ append_assoc (a.heap k).send_queue f g

Keeps-trans :
    {P : Type 0} (k : ℕ) (a b c : Client P) (calls more : List (Text × Bool)) (f g : List Text)
    → Keeps k a b calls f
    → Keeps k b c more g
    → Keeps k a c (calls ++ more) (f ++ g)
Keeps-trans k a b c calls more f g fe ge =
    ap (λ q. q ++ (c.heap k).send_queue) (payloads-append calls more)
    ∙ append_assoc (payloads calls) (payloads more) (c.heap k).send_queue
    ∙ ap (λ q. payloads calls ++ q) ge
    ∙ sym (append_assoc (payloads calls) (b.heap k).send_queue g)
    ∙ ap (λ q. q ++ g) fe
    ∙ append_assoc (a.heap k).send_queue f g

module _ (y : Yyjson) (host : PluginHost y) (sha256_hex_upper : Text → Text) (base : Text) where
  open host use {Plugin}

  Appends-on_select :
      (k : ℕ) (now : Now) (h : ℕ) (r : Select) (c : Client Plugin)
      → Appends k c (on_select y host sha256_hex_upper base now h r c).0
  unfolding on_select
  Appends-on_select k now h interrupted c = Appends-same k c c refl
  Appends-on_select k now h stuck c = Appends-same k c c refl
  Appends-on_select k now h broken c = Appends-same k c c refl
  Appends-on_select k now h idle c = Appends-same k c c refl
  Appends-on_select k now h (readable none) c = Appends-same k c c refl
  Appends-on_select k now h (readable (some line)) c =
      Appends-handle_packet y host sha256_hex_upper base k now h line c

  -- What one turn appends to the queue: the other threads before it, and the handler of a line that
  -- was read, which runs after the queue was drained.
  abbrev pub appended_in : ℕ → Turn Plugin → Client Plugin → List Text
  appended_in h t c =
      let c0 = t.elsewhere c in
      let s = c0.heap h in
      let (calls, left, ok) = drain_sends s.disconnected t.sends s.send_queue in
      let c1 = update h (set_queue left) c0 in
      let reads = not (not t.running || s.disconnected) && not (not ok || not s.fd_open) in
      added h c c0
      ++ (if reads
          then added h c1 (on_select y host sha256_hex_upper base t.now h t.select c1).0
          else [])

  -- What is appended in the turns up to the end of the loop.
  abbrev pub appended : ℕ → List (Turn Plugin) → Client Plugin → List Text
  appended h [] c = []
  appended h (t ∷ ts) c =
      let (c1, calls, next) = io_step y host sha256_hex_upper base h t c in
      appended_in h t c ++ by_next next (appended h ts c1) [] []

  Keeps-io_step :
      (h : ℕ) (t : Turn Plugin) (c : Client Plugin)
      → OnlyAppends h t
      → Keeps h c
          (io_step y host sha256_hex_upper base h t c).0
          (io_step y host sha256_hex_upper base h t c).1
          (appended_in h t c)
  unfolding io_step
  Keeps-io_step h t c quiet =
      let c0 = t.elsewhere c in
      let s = c0.heap h in
      let drained = drain_sends s.disconnected t.sends s.send_queue in
      let c1 = update h (set_queue drained.1) c0 in
      let chosen = on_select y host sha256_hex_upper base t.now h t.select c1 in
      let before = added_lem h c c0 (quiet c) in
      let nothing = λ (d : Client Plugin). sym (append-nil (d.heap h).send_queue) in
      let kept : payloads drained.0 ++ (c1.heap h).send_queue ≡ s.send_queue =
        ground (arith, drain_sends-order s.disconnected t.sends s.send_queue) in
      elim (Bool-cases (not t.running || s.disconnected)) [
        | inl stop ↦
            rw stop (Keeps-after h c c0 c0 c0 [] (added h c c0) [] before refl (nothing c0))
        | inr on ↦ elim (Bool-cases (not (drained.2) || not s.fd_open)) [
          | inl failed ↦
              rw (on, failed)
                (Keeps-after h c c0 c1 c1 drained.0 (added h c c0) [] before kept (nothing c1))
          | inr fine ↦
              rw (on, fine)
                (Keeps-after h c c0 c1 chosen.0 drained.0 (added h c c0) (added h c1 chosen.0)
                  before kept (added_lem h c1 chosen.0 (Appends-on_select h t.now h t.select c1)))
        ]
      ]

  -- The payloads are handed to `send_all_tls` in the order of the queue, each once, in any number of
  -- turns: those handed over and then those that still wait are the queue at the start with what the
  -- other threads, which only append, and the handlers of this thread appended meanwhile. A payload
  -- whose send fails counts as handed over.
  pub io_loop-order :
      (h : ℕ) (ts : List (Turn Plugin)) (c : Client Plugin)
      → All (OnlyAppends h) ts
      → Keeps h c
          (io_loop y host sha256_hex_upper base h ts c).0
          (io_loop y host sha256_hex_upper base h ts c).1
          (appended h ts c)
  unfolding io_loop close_session
  io_loop-order h [] c quiet = sym (append-nil (c.heap h).send_queue)
  io_loop-order h (t ∷ ts) c quiet =
      let step = io_step y host sha256_hex_upper base h t c in
      let rest = io_loop y host sha256_hex_upper base h ts step.0 in
      let new = appended_in h t c in
      let kept = Keeps-io_step h t c quiet.0 in
      let last = kept ∙ ap (λ q. (c.heap h).send_queue ++ q) (sym (append-nil new)) in
      elim (Next-cases step.2) [
        | inl on ↦ rw on (
            Keeps-trans h c step.0 rest.0 step.1 rest.1 new (appended h ts step.0) kept
              (io_loop-order h ts step.0 quiet.1))
        | inr (inl end) ↦ rw end (ground (arith, last))
        | inr (inr wait) ↦ rw wait last
      ]
