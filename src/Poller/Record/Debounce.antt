-- ===== src/Poller/Record/Debounce.antt =====
-- The debounce of `_apply_record` against an independent count of the failed polls in a row.
use home_lab_hq.Base.{
  ℕ, ◌+◌, ◌<◌, ◌≡◌, refl, ap, ◌∙◌, Bool, true, false, Option, none, some, List, [], ◌∷◌, arith, ltb,
  leb, nat_eq, if◌then◌else◌, or_default,
}
use home_lab_hq.Dict.{Dict}
use home_lab_hq.Domain.{JsonValue, DevicePollResult, DeviceState, no_state, Device, AlertRule}
use home_lab_hq.Poller.Alerts.{eval_alerts}
use home_lab_hq.Poller.Record.{
  Settings, Transition, went_online, went_offline, prev_state, availability_only, next_miss,
  next_confirmed, next_transition, next_state, apply_record,
}

-- One finished read of a device, as `_record_all` hands it over.
pub record Poll (N : Type 0) : Type 0 where
  pub online : Bool
  pub result : DevicePollResult N
  pub ts : ℕ

module _ {N : Type 0} where
  -- The failed polls in a row at the end of a history, newest poll first.
  unfoldable pub trailing_misses : List (Poll N) → ℕ
  trailing_misses [] = 0
  trailing_misses (p ∷ older) = if p.online then 0 else trailing_misses older + 1

  state-eval_alerts :
      (less : N → N → Bool) (values : Dict (JsonValue N)) (dev : Device N)
      → (eval_alerts less dev values).0.state ≡ dev.state
  unfolding eval_alerts
  state-eval_alerts less values dev = go dev.alerts refl
    where
      go :
          (rules : List (AlertRule N))
          → dev.alerts ≡ rules
          → (eval_alerts less dev values).0.state ≡ dev.state
      go [] e = rw (e, eval_alerts) refl
      go (r ∷ rs) e = rw (e, eval_alerts) refl

module _ {N : Type 0} where
  next_miss_fresh :
      (online : Bool) (prev : DeviceState N)
      → prev.miss ≡ none
      → next_miss online prev ≡ (if online then 0 else 0 + 1)
  unfolding next_miss
  next_miss_fresh online prev h = ground arith

  next_miss_counts :
      (online : Bool) (prev : DeviceState N) (n : ℕ)
      → prev.miss ≡ some n
      → next_miss online prev ≡ (if online then 0 else n + 1)
  unfolding next_miss
  next_miss_counts online prev n h = ground arith

  next_confirmed_fresh :
      (limit : ℕ) (online : Bool) (prev : DeviceState N)
      → 0 < limit
      → prev.miss ≡ none
      → prev.confirmed_online ≡ none
      → next_confirmed limit online prev ≡ ltb (if online then 0 else 0 + 1) limit
  unfolding next_confirmed
  next_confirmed_fresh limit online prev pos h k = ground arith

  next_confirmed_counts :
      (limit : ℕ) (online : Bool) (prev : DeviceState N) (n : ℕ)
      → 0 < limit
      → prev.miss ≡ some n
      → prev.confirmed_online ≡ some (ltb n limit)
      → next_confirmed limit online prev ≡ ltb (if online then 0 else n + 1) limit
  unfolding next_confirmed
  next_confirmed_counts limit online prev n pos h k = ground arith

  next_transition_fresh :
      (confirmed : Bool) (prev : DeviceState N)
      → prev.confirmed_online ≡ none
      → next_transition confirmed prev ≡ none
  unfolding next_transition
  next_transition_fresh confirmed prev h = ground arith

  next_transition_counts :
      (limit : ℕ) (online : Bool) (prev : DeviceState N) (n : ℕ)
      → 0 < limit
      → prev.miss ≡ some n
      → prev.confirmed_online ≡ some (ltb n limit)
      → next_transition (next_confirmed limit online prev) prev ≡ (
          if nat_eq (if online then 0 else n + 1) limit
          then some went_offline
          else if online
          then (if leb limit n then some went_online else none)
          else none)
  unfolding next_transition
  next_transition_counts limit online prev n pos h k =
      rw (next_confirmed_counts limit online prev n pos h k, k) (ground arith)

module _ {N : Type 0} (env : Settings N) where
  -- The device after a history of polls, newest first.
  unfoldable pub polled : Device N → List (Poll N) → Device N
  polled dev [] = dev
  polled dev (p ∷ older) = (apply_record env (polled dev older) p.online p.result p.ts).0

  -- What the newest poll emits.
  unfoldable pub emitted : Device N → Poll N → List (Poll N) → Option Transition
  emitted dev p older = (apply_record env (polled dev older) p.online p.result p.ts).1.transition

  pub state-apply_record :
      (dev : Device N) (online : Bool) (result : DevicePollResult N) (ts : ℕ)
      → (apply_record env dev online result ts).0.state ≡ some (next_state env dev online result ts)
  unfolding apply_record
  state-apply_record dev online result ts = go (availability_only dev) refl
    where
      go :
          (b : Bool)
          → availability_only dev ≡ b
          → (apply_record env dev online result ts).0.state
            ≡ some (next_state env dev online result ts)
      go true e = rw (e, apply_record) refl
      go false e = rw (e, apply_record) (state-eval_alerts env.less result.values _)

  -- The debounced fields of a state that one more poll leaves.
  debounced-apply_record :
      (dev : Device N) (online : Bool) (result : DevicePollResult N) (ts : ℕ)
      → let after = prev_state (apply_record env dev online result ts).0 in
        (after.miss ≡ some (next_miss online (prev_state dev)))
        × (after.confirmed_online ≡ some (next_confirmed env.offline_after online (prev_state dev)))
  unfolding next_state
  debounced-apply_record dev online result ts =
      let e = ap (λ s. or_default s no_state) (state-apply_record dev online result ts) in
      (ap DeviceState.miss e, ap DeviceState.confirmed_online e)

  -- A device that begins without a state: its counter is the number of failed polls in a row, and
  -- after at least one poll it is confirmed online exactly while that number is below the limit.
  pub polled_debounced :
      (dev : Device N) (p : Poll N) (older : List (Poll N))
      → dev.state ≡ none
      → 0 < env.offline_after
      → let state = prev_state (polled dev (p ∷ older)) in
        (state.miss ≡ some (trailing_misses (p ∷ older)))
        × (state.confirmed_online ≡ some (ltb (trailing_misses (p ∷ older)) env.offline_after))
  unfolding polled trailing_misses
  polled_debounced dev p [] fresh pos =
      let (m, c) = debounced-apply_record dev p.online p.result p.ts in
      let e = ap (λ s. or_default s no_state) fresh in
      (
        m ∙ ap some (next_miss_fresh p.online (prev_state dev) (ap DeviceState.miss e)),
        c
            ∙ ap some (
                next_confirmed_fresh env.offline_after p.online (prev_state dev) pos
                  (ap DeviceState.miss e) (ap DeviceState.confirmed_online e)),
      )
  polled_debounced dev p (q ∷ older) fresh pos =
      let before = polled dev (q ∷ older) in
      let (m, c) = debounced-apply_record before p.online p.result p.ts in
      let (m', c') = polled_debounced dev q older fresh pos in
      (
        m ∙ ap some (next_miss_counts p.online (prev_state before) _ m'),
        c
            ∙ ap some
                (next_confirmed_counts env.offline_after p.online (prev_state before) _ pos m' c'),
      )

  -- A device that begins without a state reports a transition on its second poll or later and
  -- nowhere else: it goes offline at the poll that makes the failures in a row equal the limit, and
  -- it goes online at a successful poll that ends at least that many.
  pub emitted_lem :
      (dev : Device N) (p q : Poll N) (older : List (Poll N))
      → dev.state ≡ none
      → 0 < env.offline_after
      → (emitted dev p [] ≡ none)
        × (emitted dev p (q ∷ older) ≡ (
            if nat_eq (trailing_misses (p ∷ q ∷ older)) env.offline_after
            then some went_offline
            else if p.online
            then (if leb env.offline_after (trailing_misses (q ∷ older))
                then some went_online
                else none)
            else none))
  unfolding emitted apply_record trailing_misses polled
  emitted_lem dev p q older fresh pos =
      let before = polled dev (q ∷ older) in
      let (m, c) = polled_debounced dev q older fresh pos in
      let e = ap (λ s. or_default s no_state) fresh in
      (
        next_transition_fresh _ (prev_state dev) (ap DeviceState.confirmed_online e),
        next_transition_counts env.offline_after p.online (prev_state before) _ pos m c,
      )
