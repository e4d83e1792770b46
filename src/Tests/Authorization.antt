-- ===== src/Tests/Authorization.antt =====
-- A concrete run of the visibility policy.
use home_lab_hq.Base.{String, ◌≡◌, refl, false, [], ◌∷◌}
use home_lab_hq.Dict.{Dict, lookup}
use home_lab_hq.Authorization.{Actor, device, compute, dashboard}
use home_lab_hq.Authorization.Visibility.{own, own_resources_lem}

abbrev member : Actor
member = record { user_id = "u2"; is_admin = false }

-- A resource is its owner here.
abbrev devices : Dict String
devices = ("d1", "u1") ∷ ("d2", "u2") ∷ []

abbrev owner : String → String
owner o = o

own_resources_example :
    (device owner member "d1" devices ≡ device owner member "d1" (own owner member devices))
    × (compute owner member "d1" devices ≡ compute owner member "d1" (own owner member devices))
    × (dashboard owner member "d1" false devices
        ≡ dashboard owner member "d1" false (own owner member devices))
own_resources_example =
    own_resources_lem owner member "d1" false devices (unfold lookup in (refl, (refl, tt))) refl
