-- ===== src/Plugins/Mpris/Position.antt =====
-- The position that is shown between two packets.
use kdeconnect_nx.Prelude.{◌⊎◌, ℕ, ◌+◌, ◌-◌, ◌^◌, ◌<◌, ◌≤◌, true, ◌≡◌, arith, if◌then◌else◌}
use kdeconnect_nx.Prelude.Int.{pos, ◌≤ℤ◌, wrap64_lem, ltb_ℤ, min_ℤ}
use kdeconnect_nx.Prelude.Int.{sub_pos, add_pos}
use kdeconnect_nx.Plugins.Mpris.{MprisPlugin, player_state}

player_state_playing :
    (p : MprisPlugin) (x t l now : ℕ)
    → p.state.is_playing ≡ true
    → p.state.position ≡ pos x
    → p.state.last_position_time_ms ≡ pos t
    → p.state.length ≡ pos l
    → 0 < t
    → t ≤ now
    → now < 2 ^ 62
    → x < 2 ^ 62
    → (player_state (pos now) p).position
      ≡ (if ltb_ℤ (pos 0) (pos l) then min_ℤ (pos (x + (now - t))) (pos l) else pos (x + (now - t)))
unfolding player_state
player_state_playing p x t l now playing position time length t_pos ordered late small =
    rw
      (
        playing,
        position,
        time,
        length,
        sub_pos now t ordered,
        wrap64_lem (pos (now - t)) (omega arith),
        add_pos x (now - t),
        wrap64_lem (pos (x + (now - t))) (omega arith),
      )
      (ground arith)

-- While a player plays, the position that is shown never goes back as the clock goes on, and it is
-- within the length, unless that is 0, which stands for unknown. Positions and clocks are below 2 ^ 62
-- milliseconds.
pub player_state_monotone :
    (p : MprisPlugin) (x t l now later : ℕ)
    → p.state.is_playing ≡ true
    → p.state.position ≡ pos x
    → p.state.last_position_time_ms ≡ pos t
    → p.state.length ≡ pos l
    → 0 < t
    → t ≤ now
    → now ≤ later
    → later < 2 ^ 62
    → x < 2 ^ 62
    → ((player_state (pos now) p).position ≤ℤ (player_state (pos later) p).position)
      × ((l ≡ 0) ⊎ ((player_state (pos later) p).position ≤ℤ pos l))
player_state_monotone p x t l now later playing position time length t_pos ordered next late small =
    rw
      (
        player_state_playing p x t l now playing position time length t_pos ordered (omega arith)
            small,
        player_state_playing p x t l later playing position time length t_pos (omega arith) late
            small,
      )
      (ground arith, ground arith)
