-- ===== src/Poller/Record/Payload.antt =====
-- What `_apply_record` keeps of the last successful read when the next reads fail.
use home_lab_hq.Base.{
  ℕ, String, ◌≡◌, ◌≢◌, ap, ◌∙◌, Bool, false, none, some, List, [], ◌∷◌, arith, All, eq_iff,
  or_default,
}
use home_lab_hq.Dict.{Dict}
use home_lab_hq.Domain.{JsonValue, DevicePollResult, DeviceState, no_state, Device}
use home_lab_hq.Poller.Record.{
  Settings, prev_state, next_confirmed, next_since, next_transition, carried_source, next_state,
  apply_record,
}
use home_lab_hq.Poller.Record.Debounce.{Poll, polled, state-apply_record}

module _ {N : Type 0} (env : Settings N) where
  failed_step :
      (dev : Device N) (result : DevicePollResult N) (ts : ℕ) (v : Dict (JsonValue N)) (t : String)
      → t ≢ ""
      → (prev_state dev).values ≡ some v
      → (prev_state dev).source_checked_at ≡ some t
      → let after = next_state env dev false result ts in
        (after.values ≡ some v) × (after.source_checked_at ≡ some t)
  unfolding next_state
  failed_step dev result ts v t ne hv ht =
      (ground (arith, hv), rw (ht, carried_source) (ground (arith, eq_iff t "")))

  -- However many reads fail in a row, the values of the last successful read and the text of their
  -- age stay as they were.
  pub polled_keeps_payload :
      (dev : Device N) (v : Dict (JsonValue N)) (t : String) (failures : List (Poll N))
      → t ≢ ""
      → (prev_state dev).values ≡ some v
      → (prev_state dev).source_checked_at ≡ some t
      → All (λ p. p.online ≡ false) failures
      → let after = prev_state (polled env dev failures) in
        (after.values ≡ some v) × (after.source_checked_at ≡ some t)
  unfolding polled
  polled_keeps_payload dev v t [] ne hv ht off = (hv, ht)
  polled_keeps_payload dev v t (p ∷ older) ne hv ht off =
      let before = polled env dev older in
      let (hv', ht') = polled_keeps_payload dev v t older ne hv ht off.1 in
      let e =
        ap (λ s. or_default s no_state) (state-apply_record env before p.online p.result p.ts) in
      let (kv, kt) = failed_step before p.result p.ts v t ne hv' ht' in
      (ap DeviceState.values e ∙ rw off.0 kv, ap DeviceState.source_checked_at e ∙ rw off.0 kt)

  -- `since` is the time of the poll where a transition is reported, and else the time that was
  -- stored, if one was.
  pub since-apply_record :
      (dev : Device N) (online : Bool) (result : DevicePollResult N) (ts : ℕ)
      → let (after, captured) = apply_record env dev online result ts in
        (captured.transition ≢ none → (prev_state after).since ≡ some ts)
        × ((before : ℕ)
            → before ≢ 0
            → (prev_state dev).since ≡ some before
            → captured.transition ≡ none
            → (prev_state after).since ≡ some before)
  unfolding next_state apply_record next_transition next_since
  since-apply_record dev online result ts =
      let prev = prev_state dev in
      let confirmed = next_confirmed env.offline_after online prev in
      let e =
        ap (λ s. DeviceState.since (or_default s no_state))
          (state-apply_record env dev online result ts) in
      (
        λ moved. e ∙ ap some (at_transition ts confirmed prev moved),
        λ before nonzero was still.
            e ∙ ap some (elsewhere ts confirmed prev before nonzero was still),
      )
    where
      at_transition :
          (now : ℕ) (confirmed : Bool) (prev : DeviceState N)
          → next_transition confirmed prev ≢ none
          → next_since now confirmed prev ≡ now
      at_transition now confirmed prev moved = ground arith

      elsewhere :
          (now : ℕ) (confirmed : Bool) (prev : DeviceState N) (before : ℕ)
          → before ≢ 0
          → prev.since ≡ some before
          → next_transition confirmed prev ≡ none
          → next_since now confirmed prev ≡ before
      elsewhere now confirmed prev before nonzero was still = ground arith
