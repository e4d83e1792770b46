-- ===== src/Clients/Merge.antt =====
-- `merge_observations` of backend/client_merge.py, and `ClientObservation` of backend/domain.py.
-- `N` is the type of a signal's numbers.
pub mod Spec
use home_lab_hq.Base.{
  String, Bool, true, false, Option, none, some, List, [], ◌∷◌, ◌++◌, ◌==◌, ◌&&◌, ◌||◌, not, map,
  upper, strip, if◌then◌else◌, is_some, or_default,
}
use home_lab_hq.Dict.{Dict, upsert, values}

pub record ClientObservation (N : Type 0) : Type 0 where
  pub mac : String
  pub source_id : String
  pub source_name : String
  pub ip : String
  pub hostname : String
  pub hostname_authoritative : Bool
  pub vendor : String
  pub kind : String
  pub signal : Option N
  pub place : String

-- One entry of `seen`; `place` is the key `where`.
pub record Sighting (N : Type 0) : Type 0 where
  pub via : String
  pub place : String
  pub kind : String
  pub signal : Option N

-- A merged client.
pub record Client (N : Type 0) : Type 0 where
  pub mac : String
  pub ip : String
  pub hostname : String
  pub vendor : String
  pub kind : String
  pub signal : Option N
  pub seen : List (Sighting N)

-- A client while it is merged, with its `_authoritative_hostname`.
pub record Draft (N : Type 0) : Type 0 where
  pub client : Client N
  pub authoritative : Bool

abbrev pub first_text : String → String → String
first_text old new = if old == "" then new else old

module _ {N : Type 0} where
  -- `__post_init__`: the MAC address in upper case, or none where it raises ValueError.
  unfoldable pub normalize : ClientObservation N → Option (ClientObservation N)
  normalize o =
      if upper o.mac == "" || o.source_id == "" || o.source_name == ""
      then none
      else some (record o { mac = upper o.mac })

  -- The default of `merged.setdefault`.
  unfoldable pub new_draft : String → Draft N
  new_draft mac = record {
    client = record {
      mac = mac;
      ip = "";
      hostname = "";
      vendor = "";
      kind = "wired";
      signal = none;
      seen = [];
    };
    authoritative = false;
  }

  -- Whether the observation's host name replaces the one that is there.
  unfoldable pub takes_hostname : ClientObservation N → Draft N → Bool
  takes_hostname o d =
      not (strip o.hostname == "")
      && (o.hostname_authoritative || d.client.hostname == "")
      && (o.hostname_authoritative || not d.authoritative)

  unfoldable pub sighting : ClientObservation N → Sighting N
  sighting o = record {
    via = o.source_name;
    place = o.place;
    kind = if o.kind == "" then "wired" else o.kind;
    signal = o.signal;
  }

  -- The body of the loop, on the client of the observation's MAC address.
  unfoldable pub merge_into : ClientObservation N → Draft N → Draft N
  unfolding takes_hostname sighting
  merge_into o d =
      let takes = takes_hostname o d in
      let wifi = o.kind == "wifi" in
      record {
        client = record {
          mac = d.client.mac;
          ip = first_text d.client.ip o.ip;
          hostname = if takes then strip o.hostname else d.client.hostname;
          vendor = first_text d.client.vendor o.vendor;
          kind = if wifi then "wifi" else d.client.kind;
          signal = if wifi && is_some o.signal then o.signal else d.client.signal;
          seen = d.client.seen ++ sighting o ∷ [];
        };
        authoritative = if takes then o.hostname_authoritative else d.authoritative;
      }

  -- The loop over the observations.
  unfoldable pub merge_all : List (ClientObservation N) → Dict (Draft N) → Dict (Draft N)
  merge_all [] merged = merged
  merge_all (o ∷ os) merged = merge_all os (
      if upper o.mac == ""
      then merged
      else upsert (upper o.mac) (new_draft (upper o.mac)) (merge_into o) merged)

  unfoldable pub merge_observations : List (ClientObservation N) → List (Client N)
  unfolding merge_all
  merge_observations os = map Draft.client (values (merge_all os []))
