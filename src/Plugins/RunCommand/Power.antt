-- ===== src/Plugins/RunCommand/Power.antt =====
-- Which commands another device can run.
use kdeconnect_nx.Prelude.{
  Text, bytes, Bool, true, false, not, ◌&&◌, ◌||◌, arith, List, [], ◌∷◌, ◌++◌, ◌≡◌, ◌⊎◌, refl, ap,
  ◌∙◌, if◌then◌else◌, eq_text, Bool-cases, inl, inr, append-nil, map, All,
}
use kdeconnect_nx.Json.Yyjson.{Yyjson}
use kdeconnect_nx.Json.Body
use kdeconnect_nx.Packet.{NetworkPacket}
use kdeconnect_nx.Plugins.RunCommand.{
  NxCommand, nx_commands, RunCommandPlugin, entry, add_all, command_list, names_dangerous,
  names_command, run_local_command, on_command_list, on_packet_received,
}

-- The commands that are offered.
abbrev pub offered : Bool → List NxCommand → List NxCommand
offered power_enabled [] = []
offered power_enabled (c ∷ cs) =
    if c.is_dangerous && not power_enabled
    then offered power_enabled cs
    else c ∷ offered power_enabled cs

abbrev pub one_of : Text → List Text → Bool
one_of key [] = false
one_of key (k ∷ ks) = eq_text key k || one_of key ks

-- The commands that leave the console on, and those that do not.
abbrev pub harmless_keys : List Text
harmless_keys =
    bytes "nx-auto-bright-off"
    ∷ bytes "nx-auto-bright-on"
    ∷ bytes "nx-bluetooth-off"
    ∷ bytes "nx-bluetooth-on"
    ∷ bytes "nx-bright-max"
    ∷ bytes "nx-bright-min"
    ∷ bytes "nx-screen-off"
    ∷ bytes "nx-screen-on"
    ∷ bytes "nx-screenshot"
    ∷ []

abbrev pub power_keys : List Text
power_keys = bytes "nx-reboot" ∷ bytes "nx-shutdown" ∷ []

-- A command can be run: it is harmless, or turns the console off while that is enabled.
abbrev pub IsAllowed : Bool → Text → Type 0
IsAllowed power_enabled key =
    (one_of key harmless_keys || (one_of key power_keys && power_enabled)) ≡ true

known-IsAllowed :
    (power_enabled : Bool) (key : Text)
    → (names_dangerous key nx_commands && not power_enabled) ≡ false
    → names_command key nx_commands ≡ true
    → IsAllowed power_enabled key
unfolding names_dangerous names_command
known-IsAllowed true key safe known = ground (arith, known)
known-IsAllowed false key safe known = ground (arith, safe, known)

-- What was run since: nothing, or one command that can be run.
abbrev pub RunsAllowed : Bool → List Text → List Text → Type 0
RunsAllowed power_enabled before after =
    (after ≡ before) ⊎ ((key : Text) × IsAllowed power_enabled key × (after ≡ key ∷ before))

run_local_command-RunsAllowed :
    (power_enabled : Bool) (key : Text) (p : RunCommandPlugin)
    → RunsAllowed power_enabled p.executed (run_local_command power_enabled key p).executed
unfolding run_local_command
run_local_command-RunsAllowed power_enabled key p =
    elim (Bool-cases (names_dangerous key nx_commands && not power_enabled)) [
      | inl refused ↦ rw refused (inl refl)
      | inr allowed ↦ elim (Bool-cases (names_command key nx_commands)) [
        | inl known ↦
            rw (allowed, known) (inr (key, known-IsAllowed power_enabled key allowed known, refl))
        | inr unknown ↦ rw (allowed, unknown) (inl refl)
      ]
    ]

-- The entries, with a comma between each two.
abbrev pub joined : List Text → Text
joined [] = []
joined (t ∷ []) = t
joined (t ∷ u ∷ ts) = t ++ (b',' ∷ joined (u ∷ ts))

-- The entries with a comma before each.
abbrev tail : List Text → Text
tail [] = []
tail (t ∷ ts) = b',' ∷ (t ++ tail ts)

tail-joined : (t : Text) (ts : List Text) → t ++ tail ts ≡ joined (t ∷ ts)
tail-joined t [] = append-nil t
tail-joined t (u ∷ ts) = ap (λ r. t ++ (b',' ∷ r)) (tail-joined u ts)

add_all-tail :
    (power_enabled : Bool) (cs : List NxCommand)
    → add_all power_enabled false cs ≡ tail (map entry (offered power_enabled cs))
unfolding add_all
add_all-tail power_enabled [] = refl
add_all-tail power_enabled (c ∷ cs) = elim (Bool-cases (c.is_dangerous && not power_enabled)) [
  | inl skipped ↦ rw skipped (add_all-tail power_enabled cs)
  | inr added ↦ rw added (ap (λ r. b',' ∷ (entry c ++ r)) (add_all-tail power_enabled cs))
]

add_all-joined :
    (power_enabled : Bool) (cs : List NxCommand)
    → add_all power_enabled true cs ≡ joined (map entry (offered power_enabled cs))
unfolding add_all
add_all-joined power_enabled [] = refl
add_all-joined power_enabled (c ∷ cs) = elim (Bool-cases (c.is_dangerous && not power_enabled)) [
  | inl skipped ↦ rw skipped (add_all-joined power_enabled cs)
  | inr added ↦ rw added (
      ap (λ r. entry c ++ r) (add_all-tail power_enabled cs)
      ∙ tail-joined (entry c) (map entry (offered power_enabled cs)))
]

offered-IsAllowed :
    (power_enabled : Bool)
    → All (λ c. IsAllowed power_enabled c.key) (offered power_enabled nx_commands)
unfolding eq_text bytes
offered-IsAllowed true =
    ((refl, (refl, (refl, (refl, (refl, (refl, (refl, (refl, (refl, (refl, (refl, tt))))))))))))
offered-IsAllowed false =
    ((refl, (refl, (refl, (refl, (refl, (refl, (refl, (refl, (refl, tt))))))))))

-- The list that the other device gets has the entries of the commands that are offered, and each of
-- them can be run: with the power commands disabled the list does not have them.
pub command_list-offered :
    (power_enabled : Bool)
    → (command_list power_enabled
        ≡ b'{' ∷ (joined (map entry (offered power_enabled nx_commands)) ++ b'}' ∷ []))
      × All (λ c. IsAllowed power_enabled c.key) (offered power_enabled nx_commands)
unfolding command_list
command_list-offered power_enabled = (
  ap (λ r. b'{' ∷ (r ++ b'}' ∷ [])) (add_all-joined power_enabled nx_commands),
  offered-IsAllowed power_enabled,
)

module _ (y : Yyjson) where
  on_command_list-executed :
      (np : NetworkPacket y) (p : RunCommandPlugin) → (on_command_list y np p).executed ≡ p.executed
  unfolding on_command_list
  on_command_list-executed np p = elim (Bool-cases (Body.is_str y np.body (bytes "commandList"))) [
    | inl given ↦ rw given refl
    | inr missing ↦ rw missing refl
  ]

  -- Whatever packet arrives, the console runs at most one command: one of the nine harmless ones, or,
  -- where the power commands are enabled, the reboot or the shutdown.
  pub on_packet_received-RunsAllowed :
      (power_enabled : Bool) (np : NetworkPacket y) (p : RunCommandPlugin)
      → RunsAllowed power_enabled p.executed (on_packet_received y power_enabled np p).0.executed
  unfolding on_packet_received
  on_packet_received-RunsAllowed power_enabled np p =
      let key = Body.get_str y np.body (bytes "key") in
      elim (Bool-cases (eq_text np.type (bytes "kdeconnect.runcommand"))) [
        | inl list ↦ rw list (inl (on_command_list-executed np p))
        | inr request ↦
            elim (Bool-cases (not (eq_text np.type (bytes "kdeconnect.runcommand.request")))) [
              | inl other ↦ rw (request, other) (inl refl)
              | inr ours ↦
                  elim (Bool-cases (Body.value_bool y np.body (bytes "requestCommandList") false)) [
                    | inl asks ↦ rw (request, ours, asks) (inl refl)
                    | inr runs ↦ elim (Bool-cases (Body.is_str y np.body (bytes "key"))) [
                      | inl given ↦
                          rw (request, ours, runs, given)
                            (run_local_command-RunsAllowed power_enabled key p)
                      | inr missing ↦ rw (request, ours, runs, missing) (inl refl)
                    ]
                  ]
            ]
      ]
