-- ===== src/Clients/Merge/Spec.antt =====
-- What a merged client is, told from the observations of its MAC address alone.
use home_lab_hq.Base.{
  String, ◌≡◌, ◌≢◌, refl, sym, ap, ◌∙◌, inl, inr, false, Option, none, some, List, [], ◌∷◌, ◌++◌,
  arith, ◌==◌, eq_iff, ◌&&◌, not, map, upper, strip, if◌then◌else◌, any, keep, is_some, or_default,
  Bool-cases,
}
use mathlib.Core.List.{append_assoc, append-nil}
use home_lab_hq.Dict.{Dict, lookup}
use home_lab_hq.Dict.Laws.{lookup-upsert}
use home_lab_hq.Clients.Merge.{
  ClientObservation, Client, Draft, new_draft, first_text, sighting, merge_into, merge_all,
}

-- The first text of a list that is not empty, or the empty text.
abbrev pub first_nonempty : List String → String
first_nonempty [] = ""
first_nonempty (s ∷ ss) = first_text s (first_nonempty ss)

first_text_assoc : (a b c : String) → first_text (first_text a b) c ≡ first_text a (first_text b c)
first_text_assoc a b c = ground arith

module _ {N : Type 0} where
  -- The last authoritative host name that is not blank.
  abbrev pub last_authoritative : List (ClientObservation N) → Option String
  last_authoritative [] = none
  last_authoritative (o ∷ os) = elim (last_authoritative os) [
    | some h ↦ some h
    | none ↦
        if o.hostname_authoritative && not (strip o.hostname == "")
        then some (strip o.hostname)
        else none
  ]

  -- The last signal that a Wi-Fi observation reports.
  abbrev pub last_signal : List (ClientObservation N) → Option N
  last_signal [] = none
  last_signal (o ∷ os) = elim (last_signal os) [
    | some s ↦ some s
    | none ↦ if o.kind == "wifi" && is_some o.signal then o.signal else none
  ]

  -- A client from its own observations, oldest first: the first address and vendor, the last
  -- authoritative host name or else the first one, Wi-Fi if any observation is, and every sighting.
  pub merged_client : String → List (ClientObservation N) → Client N
  merged_client mac os = record {
    mac = mac;
    ip = first_nonempty (map ClientObservation.ip os);
    hostname =
        or_default (last_authoritative os)
          (first_nonempty (map (λ o. strip (ClientObservation.hostname o)) os));
    vendor = first_nonempty (map ClientObservation.vendor os);
    kind = if any (λ o. o.kind == "wifi") os then "wifi" else "wired";
    signal = last_signal os;
    seen = map sighting os;
  }

  -- The observations of one MAC address, in their order.
  pub of_mac : String → List (ClientObservation N) → List (ClientObservation N)
  of_mac mac = keep (λ o. upper o.mac == mac)

  merged_from : Draft N → List (ClientObservation N) → Draft N
  merged_from d [] = d
  merged_from d (o ∷ os) = merged_from (merge_into o d) os

  mac-merged_from :
      (d : Draft N) (os : List (ClientObservation N)) → (merged_from d os).client.mac ≡ d.client.mac
  unfolding merged_from merge_into
  mac-merged_from d [] = refl
  mac-merged_from d (o ∷ os) = mac-merged_from (merge_into o d) os

  ip-merged_from :
      (d : Draft N) (os : List (ClientObservation N))
      → (merged_from d os).client.ip
        ≡ first_text d.client.ip (first_nonempty (map ClientObservation.ip os))
  unfolding merged_from merge_into
  ip-merged_from d [] = ground (arith, eq_iff d.client.ip "")
  ip-merged_from d (o ∷ os) =
      ip-merged_from (merge_into o d) os ∙ first_text_assoc d.client.ip o.ip _

  vendor-merged_from :
      (d : Draft N) (os : List (ClientObservation N))
      → (merged_from d os).client.vendor
        ≡ first_text d.client.vendor (first_nonempty (map ClientObservation.vendor os))
  unfolding merged_from merge_into
  vendor-merged_from d [] = ground (arith, eq_iff d.client.vendor "")
  vendor-merged_from d (o ∷ os) =
      vendor-merged_from (merge_into o d) os ∙ first_text_assoc d.client.vendor o.vendor _

  kind-merged_from :
      (d : Draft N) (os : List (ClientObservation N))
      → (merged_from d os).client.kind
        ≡ (if any (λ o. o.kind == "wifi") os then "wifi" else d.client.kind)
  unfolding merged_from merge_into
  kind-merged_from d [] = refl
  kind-merged_from d (o ∷ os) = ground (arith, kind-merged_from (merge_into o d) os)

  signal-merged_from :
      (d : Draft N) (os : List (ClientObservation N))
      → (merged_from d os).client.signal
        ≡ elim (last_signal os) [ some s ↦ some s | none ↦ d.client.signal ]
  unfolding merged_from merge_into
  signal-merged_from d [] = refl
  signal-merged_from d (o ∷ os) = ground (arith, signal-merged_from (merge_into o d) os)

  seen-merged_from :
      (d : Draft N) (os : List (ClientObservation N))
      → (merged_from d os).client.seen ≡ d.client.seen ++ map sighting os
  unfolding merged_from merge_into
  seen-merged_from d [] = sym (append-nil d.client.seen)
  seen-merged_from d (o ∷ os) =
      seen-merged_from (merge_into o d) os ∙ append_assoc d.client.seen (sighting o ∷ []) _

  hostname-merged_from :
      (d : Draft N) (os : List (ClientObservation N))
      → (merged_from d os).client.hostname
        ≡ or_default (last_authoritative os) (
            if d.authoritative
            then d.client.hostname
            else first_text d.client.hostname
                (first_nonempty (map (λ o. strip (ClientObservation.hostname o)) os)))
  unfolding merged_from merge_into
  hostname-merged_from d [] = ground (arith, eq_iff d.client.hostname "")
  hostname-merged_from d (o ∷ os) = ground (
    arith,
    hostname-merged_from (merge_into o d) os,
    eq_iff d.client.hostname "",
    eq_iff (strip o.hostname) "",
  )

  merged_from_new :
      (mac : String) (os : List (ClientObservation N))
      → (merged_from (new_draft mac) os).client ≡ merged_client mac os
  unfolding merged_client new_draft
  merged_from_new mac os =
      let d = new_draft mac in
      λ i. record {
        mac = mac-merged_from d os i;
        ip = ip-merged_from d os i;
        hostname = hostname-merged_from d os i;
        vendor = vendor-merged_from d os i;
        kind = kind-merged_from d os i;
        signal = (signal-merged_from d os ∙ drop_none (last_signal os)) i;
        seen = seen-merged_from d os i;
      }
    where
      drop_none : (o : Option N) → elim o [ some s ↦ some s | none ↦ none ] ≡ o
      drop_none none = refl
      drop_none (some s) = refl

  abbrev continued : String → Option (Draft N) → List (ClientObservation N) → Option (Draft N)
  continued mac none [] = none
  continued mac none (o ∷ os) = some (merged_from (new_draft mac) (o ∷ os))
  continued mac (some d) os = some (merged_from d os)

  continued-cons :
      (mac : String) (found : Option (Draft N)) (o : ClientObservation N)
      (os : List (ClientObservation N))
      → continued mac (some (merge_into o (or_default found (new_draft mac)))) os
        ≡ continued mac found (o ∷ os)
  unfolding merged_from
  continued-cons mac none o os = refl
  continued-cons mac (some d) o os = refl

  lookup-merge_all :
      (mac : String) (os : List (ClientObservation N)) (m : Dict (Draft N))
      → mac ≢ ""
      → lookup mac (merge_all os m) ≡ continued mac (lookup mac m) (of_mac mac os)
  unfolding merge_all of_mac merged_from
  lookup-merge_all mac [] m ne = nothing_more (lookup mac m)
    where
      nothing_more : (o : Option (Draft N)) → o ≡ continued mac o []
      nothing_more none = refl
      nothing_more (some d) = refl
  lookup-merge_all mac (o ∷ os) m ne = elim (Bool-cases (upper o.mac == "")) [
    | inl blank ↦
        let other : (upper o.mac == mac) ≡ false =
          ground (arith, eq_iff (upper o.mac) "", eq_iff (upper o.mac) mac) in
        rw (blank, other) (lookup-merge_all mac os m ne)
    | inr named ↦ elim (Bool-cases (upper o.mac == mac)) [
      | inl same ↦
          let e : upper o.mac ≡ mac = (eq_iff (upper o.mac) mac).0 same in
          rw (named, same)
            (lookup-merge_all mac os _ ne
              ∙ rw (lookup-upsert mac (upper o.mac) (new_draft (upper o.mac)) (merge_into o) m)
                  (rw same (rw e (continued-cons mac (lookup mac m) o (of_mac mac os)))))
      | inr other ↦
          rw (named, other)
            (lookup-merge_all mac os _ ne
              ∙ rw (lookup-upsert mac (upper o.mac) (new_draft (upper o.mac)) (merge_into o) m)
                  (rw other refl))
    ]
  ]

  -- What the merge knows of one MAC address: nothing without an observation of it.
  pub expected : String → List (ClientObservation N) → Option (Client N)
  expected mac [] = none
  expected mac (o ∷ os) = some (merged_client mac (o ∷ os))

  abbrev pub client_of : Option (Draft N) → Option (Client N)
  client_of none = none
  client_of (some d) = some d.client

  continued-expected :
      (mac : String) (os : List (ClientObservation N))
      → client_of (continued mac none os) ≡ expected mac os
  unfolding expected
  continued-expected mac [] = refl
  continued-expected mac (o ∷ os) = ap some (merged_from_new mac (o ∷ os))

  -- For every MAC address the merged dictionary holds exactly the client that its own observations
  -- describe, whatever the other observations are and however the observations interleave.
  pub merge_all_lem :
      (mac : String) (os : List (ClientObservation N))
      → mac ≢ ""
      → client_of (lookup mac (merge_all os [])) ≡ expected mac (of_mac mac os)
  merge_all_lem mac os ne =
      ap client_of (lookup-merge_all mac os [] ne)
      ∙ unfold lookup in continued-expected mac (of_mac mac os)
