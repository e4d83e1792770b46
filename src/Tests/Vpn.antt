-- ===== src/Tests/Vpn.antt =====
-- Concrete runs of the model of the VPN alerts.
use home_lab_hq.Base.{String, ◌≡◌, refl, List, [], ◌∷◌, is_in, nat_eq}
use home_lab_hq.Dict.{lookup}
use home_lab_hq.Vpn.Alerts.{update_alert_state}
use home_lab_hq.Vpn.Alerts.Streaks.{state_after, streak, item_of, update_alert_state_lem}

-- The latest poll first.
abbrev polls : List (List String)
polls = ("server_down" ∷ "stale_handshake" ∷ []) ∷ ("server_down" ∷ []) ∷ []

second_poll :
    (update_alert_state ("server_down" ∷ []) (state_after (("server_down" ∷ []) ∷ []))).0
    ≡ "server_down" ∷ []
unfolding update_alert_state home_lab_hq.Dict.insert lookup
second_poll = refl

update_alert_state_example :
    (lookup "server_down" (state_after (("server_down" ∷ []) ∷ polls))
      ≡ item_of (streak "server_down" (("server_down" ∷ []) ∷ polls)))
    × (is_in "server_down" (update_alert_state ("server_down" ∷ []) (state_after polls)).0
        ≡ nat_eq (streak "server_down" (("server_down" ∷ []) ∷ polls)) 2)
update_alert_state_example = update_alert_state_lem "server_down" ("server_down" ∷ []) polls
