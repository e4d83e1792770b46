-- ===== src/Scheduler/Names.antt =====
-- The names of the started jobs and of the workers.
use home_lab_hq.Base.{
  ℕ, String, ◌≡◌, refl, ap, ◌∙◌, inl, inr, Bool, true, false, Option, none, some, List, [], ◌∷◌,
  ◌++◌, ◌&&◌, not, arith, ◌==◌, eq_iff, is_in-append, eq_refl, Bool-cases, is_in, AllDistinct,
}
use home_lab_hq.Dict.{Dict, lookup}
use home_lab_hq.Dict.Laws.{IsDict}
use home_lab_hq.Prune.Named.{AreNamed}
use home_lab_hq.Scheduler.{ScheduledJob, starts_worker, started_names, discard}

-- Whether an optional job is started.
abbrev pub starts_of : ℕ → Option ScheduledJob → Bool
starts_of now none = false
starts_of now (some job) = starts_worker now job

abbrev pub HaveNames : Dict ScheduledJob → Type 0
HaveNames = AreNamed (λ item. item.1.name)

pub append-AllDistinct :
    (xs ys : List String)
    → AllDistinct xs
    → AllDistinct ys
    → ((k : String) → is_in k xs ≡ true → is_in k ys ≡ false)
    → AllDistinct (xs ++ ys)
append-AllDistinct [] ys hx hy apart = hy
append-AllDistinct (x ∷ xs) ys hx hy apart = (
  is_in-append x xs ys ∙ ground (arith, hx.0, apart x, eq_refl x),
  append-AllDistinct xs ys hx.1 hy (λ k inside. apart k (ground (arith, inside))),
)

pub is_in-started_names :
    (now : ℕ) (k : String) (d : Dict ScheduledJob)
    → IsDict d
    → HaveNames d
    → is_in k (started_names now d) ≡ starts_of now (lookup k d)
unfolding started_names lookup
is_in-started_names now k [] h named = refl
is_in-started_names now k ((j, job) ∷ d) h named =
    let rest = is_in-started_names now k d h.1 named.1 in
    elim (Bool-cases (j == k)) [
      | inl here ↦
          let absent : lookup k d ≡ none = rw (← (eq_iff j k).0 here) h.0 in
          let no_more : is_in k (started_names now d) ≡ false = rest ∙ ap (starts_of now) absent in
          rw (here, named.0) (ground (arith, no_more, here))
      | inr other ↦ rw (other, named.0) (ground (arith, rest, other))
    ]

pub started_names-AllDistinct :
    (now : ℕ) (d : Dict ScheduledJob) → IsDict d → HaveNames d → AllDistinct (started_names now d)
unfolding started_names
started_names-AllDistinct now [] h named = tt
started_names-AllDistinct now ((j, job) ∷ d) h named =
    let rest = started_names-AllDistinct now d h.1 named.1 in
    elim (Bool-cases (starts_worker now job)) [
      | inl starts ↦
          rw (starts, named.0)
            (is_in-started_names now j d h.1 named.1 ∙ ap (starts_of now) h.0, rest)
      | inr quiet ↦ rw quiet rest
    ]

pub is_in-discard :
    (k name : String) (xs : List String)
    → is_in k (discard name xs) ≡ (not (k == name) && is_in k xs)
unfolding discard
is_in-discard k name [] = ground arith
is_in-discard k name (x ∷ xs) =
    ground (arith, is_in-discard k name xs, eq_iff x name, eq_iff k name, eq_iff x k)

pub discard-AllDistinct :
    (name : String) (xs : List String) → AllDistinct xs → AllDistinct (discard name xs)
unfolding discard
discard-AllDistinct name [] h = tt
discard-AllDistinct name (x ∷ xs) h = elim (Bool-cases (x == name)) [
  | inl goes ↦ rw goes (discard-AllDistinct name xs h.1)
  | inr stays ↦
      rw stays (is_in-discard x name xs ∙ ground (arith, h.0), discard-AllDistinct name xs h.1)
]
