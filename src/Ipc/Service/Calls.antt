-- ===== src/Ipc/Service/Calls.antt =====
-- What the overlay's calls make the service do.
use kdeconnect_nx.Prelude.{
  ℕ, zero, suc, ◌-◌, ◌≤◌, ◌<◌, Text, c_str_lem, HasNoNul, true, false, none, [], ◌∷◌, ◌++◌, ◌≡◌,
  refl, ap, ◌∙◌, arith, ltb, take, length, length-append, get_elem?,
}
use kdeconnect_nx.Json.Yyjson.{Yyjson}
use kdeconnect_nx.Client.State.{PluginHost, Client, Now}
use kdeconnect_nx.Client.Pairing.{request_pair, accept_pair, reject_pair, unpair}
use kdeconnect_nx.Ipc.Wire.{wire_device_id}
use kdeconnect_nx.Ipc.Wire.Fields.{length-strncpy}
use kdeconnect_nx.Ipc.Wire.RoundTrip.{cut, wire_device_id_lem}
use kdeconnect_nx.Ipc.Requests.{
  kdec_ipc_request_pair, kdec_ipc_accept_pair, kdec_ipc_reject_pair, kdec_ipc_unpair,
}
use kdeconnect_nx.Ipc.Listing.{Views}
use kdeconnect_nx.Ipc.Service.{Request, Environment, IpcState, Reply, done, requested_id}
use kdeconnect_nx.Ipc.Service.Handlers.{pair_command}
use kdeconnect_nx.Ipc.Service.Commands
use kdeconnect_nx.Ipc.Service.Commands.{handle, handle_known, handle_command}

-- A text that fits beside the end of its array, and comes back whole.
pub record Fits (n : ℕ) (t : Text) : Type 0 where
  pub no_nul : HasNoNul t
  pub short : length t < n

take_all : (n : ℕ) (t : Text) → length t ≤ n → take n t ≡ t
take_all zero [] h = refl
take_all zero (c ∷ t) h = absurd (omega (arith, h))
take_all (suc n) [] h = refl
take_all (suc n) (c ∷ t) h = ap (◌∷◌ c) (take_all n t (omega (arith, h)))

cut_lem : (n : ℕ) (t : Text) → Fits n t → cut n t ≡ t
cut_lem n t f =
    ap (take (n - 1)) (c_str_lem t f.no_nul) ∙ take_all (n - 1) t (omega (arith, f.short))

long_enough :
    (wire padding : Text) (n : ℕ) → length wire ≡ n → ltb (length (wire ++ padding)) n ≡ false
long_enough wire padding n h = ground (arith, length-append wire padding)

length-device_id : (id : Text) → length (wire_device_id id) ≡ 64
unfolding wire_device_id
length-device_id id = length-strncpy 64 id

module _ {y : Yyjson} (host : PluginHost y) (views : Views host.Plugin)
    (sha256_hex_upper : Text → Text) (base settings_path : Text) (e : Environment host)
    (there : e.has_client ≡ true) where
  abbrev pub answer : Request → IpcState host → Reply host
  answer = handle_command host views sha256_hex_upper base settings_path e

  pub answer_lem :
      (r : Request) (s : IpcState host)
      → answer r s
        ≡ handle_known host views sha256_hex_upper base settings_path e
            (get_elem? Commands.commands r.cmd_id)
            r
            s
  unfolding handle_command
  answer_lem r s = simp there

  pair_command_lem :
      (call : Now → Text → Client host.Plugin → Client host.Plugin) (n : ℕ) (id padding : Text)
      (s : IpcState host)
      → Fits 64 id
      → pair_command host views sha256_hex_upper base settings_path e
          (record { cmd_id = n; input = wire_device_id id ++ padding; recv_size = none })
          call
          s
        ≡ done host (record s { client = call e.now id s.client })
  unfolding pair_command requested_id
  pair_command_lem call n id padding s f =
      rw
        (
          long_enough (wire_device_id id) padding 64 (length-device_id id),
          wire_device_id_lem id padding,
          cut_lem 64 id f,
        )
        refl

  -- The four calls of pairing, for an id that fits into the wire's array, do to the client just what
  -- its functions do for this id, and succeed.
  pub answer-pairing :
      (id padding : Text) (s : IpcState host)
      → Fits 64 id
      → (answer (kdec_ipc_request_pair padding id) s
          ≡ done host
              (record s { client = request_pair y host sha256_hex_upper base e.now id s.client }))
        × (answer (kdec_ipc_accept_pair padding id) s
            ≡ done host
                (record s { client = accept_pair y host sha256_hex_upper base e.now id s.client }))
        × (answer (kdec_ipc_reject_pair padding id) s
            ≡ done host
                (record s { client = reject_pair y host sha256_hex_upper base e.now id s.client }))
        × (answer (kdec_ipc_unpair padding id) s
            ≡ done host
                (record s { client = unpair y host sha256_hex_upper base e.now id s.client }))
  unfolding handle_known handle
  answer-pairing id padding s f = (
    answer_lem _ s ∙ pair_command_lem (request_pair y host sha256_hex_upper base) 3 id padding s f,
    answer_lem _ s ∙ pair_command_lem (accept_pair y host sha256_hex_upper base) 4 id padding s f,
    answer_lem _ s ∙ pair_command_lem (reject_pair y host sha256_hex_upper base) 5 id padding s f,
    answer_lem _ s ∙ pair_command_lem (unpair y host sha256_hex_upper base) 6 id padding s f,
  )
