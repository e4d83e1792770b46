-- ===== src/Tests/Clients.antt =====
-- Concrete runs of the model of the client merge and of the pruning of dictionaries.
use home_lab_hq.Base.{
  ℕ, String, ◌≡◌, ◌≢◌, ◌≤◌, ◌<◌, refl, true, false, Option, none, some, List, [], ◌∷◌, arith,
  eq_iff, length, map,
}
use home_lab_hq.Dict.{Dict, lookup}
use home_lab_hq.Dict.Laws.{IsDict}
use home_lab_hq.Clients.Merge.{ClientObservation, Client, merge_all, merge_observations}
use home_lab_hq.Clients.Merge.Spec.{expected, of_mac, client_of, merge_all_lem}
use home_lab_hq.Prune.{prune_oldest}
use home_lab_hq.Prune.Newest.{prune_oldest_lem}

abbrev on_switch : ClientObservation ℕ
on_switch = record {
  mac = "AA:01";
  source_id = "s1";
  source_name = "Switch";
  ip = "10.0.0.5";
  hostname = "guess";
  hostname_authoritative = false;
  vendor = "";
  kind = "wired";
  signal = none;
  place = "port 3";
}

abbrev on_router : ClientObservation ℕ
on_router = record on_switch {
  source_id = "r1";
  source_name = "Router";
  hostname = " laptop ";
  hostname_authoritative = true;
  kind = "wifi";
  signal = some 70;
}

abbrev on_other : ClientObservation ℕ
on_other = record on_switch { mac = "BB:02"; ip = "10.0.0.6" }

abbrev observations : List (ClientObservation ℕ)
observations = on_switch ∷ on_other ∷ on_router ∷ []

merge_all_example :
    client_of (lookup "AA:01" (merge_all observations []))
    ≡ expected "AA:01" (of_mac "AA:01" observations)
merge_all_example = merge_all_lem "AA:01" observations (λ e. ground (arith, eq_iff "AA:01" ""))

-- The authoritative host name wins.
merged_hostname : map Client.hostname (merge_observations observations) ≡ "laptop" ∷ "guess" ∷ []
unfolding merge_observations home_lab_hq.Base.upper home_lab_hq.Dict.upsert home_lab_hq.Dict.insert
    home_lab_hq.Clients.Merge.merge_into home_lab_hq.Base.strip lookup
    home_lab_hq.Clients.Merge.new_draft
merged_hostname = refl

abbrev ages : Dict ℕ
ages = ("a", 30) ∷ ("b", 10) ∷ ("c", 20) ∷ []

ages-IsDict : IsDict ages
unfolding lookup
ages-IsDict = (refl, (refl, (refl, tt)))

two_newest : prune_oldest (λ n. n) 2 ages ≡ ("a", 30) ∷ ("c", 20) ∷ []
unfolding prune_oldest home_lab_hq.Prune.before home_lab_hq.Dict.erase
two_newest = refl

prune_oldest_example :
    (length (prune_oldest (λ n. n) 2 ages) ≤ 2)
    × (2 < length ages → length (prune_oldest (λ n. n) 2 ages) ≡ 2)
    × (length ages ≤ 2 → prune_oldest (λ n. n) 2 ages ≡ ages)
    × ((k j : String) (v w : ℕ)
        → lookup k ages ≡ some v
        → lookup k (prune_oldest (λ n. n) 2 ages) ≡ none
        → lookup j (prune_oldest (λ n. n) 2 ages) ≡ some w
        → (lookup j ages ≡ some w) × (v ≤ w))
prune_oldest_example = prune_oldest_lem (λ n. n) 2 ages ages-IsDict
