-- ===== src/Auth/Throttle/Lockout.antt =====
-- The throttle locks an address after ten failures in the window, and its table stays bounded.
use home_lab_hq.Base.{
  ℕ, ◌≤◌, ◌<◌, String, ◌≡◌, refl, sym, ap, ◌∙◌, none, some, List, [], ◌∷◌, ◌++◌, arith, ◌==◌,
  eq_refl, leb, if◌then◌else◌, length, or_default,
}
use mathlib.Core.List.{append_assoc, append-nil}
use home_lab_hq.Dict.{Dict, lookup, erase}
use home_lab_hq.Dict.Laws.{lookup-erase}
use home_lab_hq.Auth.Throttle.{
  Failures, auth_fail_max, throttle_key, put_last, pop_oldest, recent, login_locked,
  record_login_fail, clear_login_fails,
}

module _ {V : Type 0} where
  lookup-snoc :
      (k j : String) (v : V) (d : Dict V)
      → lookup k d ≡ none
      → lookup k (d ++ (j, v) ∷ []) ≡ (if j == k then some v else none)
  unfolding lookup
  lookup-snoc k j v [] h = refl
  lookup-snoc k j v ((i, w) ∷ d) h = ground (arith, lookup-snoc k j v d)

  length-pop_oldest : (limit : ℕ) (d : Dict V) → length (pop_oldest limit d) ≤ limit
  unfolding pop_oldest
  length-pop_oldest limit [] = omega arith
  length-pop_oldest limit (x ∷ d) = ground (arith, length-pop_oldest limit d)

  -- The last item survives.
  lookup-pop_oldest :
      (limit : ℕ) (k : String) (v : V) (d : Dict V)
      → 0 < limit
      → lookup k d ≡ none
      → lookup k (pop_oldest limit (d ++ (k, v) ∷ [])) ≡ some v
  unfolding pop_oldest lookup
  lookup-pop_oldest limit k v [] pos h = ground (arith, eq_refl k)
  lookup-pop_oldest limit k v ((j, w) ∷ d) pos h =
      ground (arith, lookup-pop_oldest limit k v d pos, lookup-snoc k k v d, eq_refl k)

-- Failed attempts of an address, oldest first.
pub fail_at : ℕ → String → List ℕ → Failures → Failures
fail_at limit ip [] fails = fails
fail_at limit ip (t ∷ ts) fails = fail_at limit ip ts (record_login_fail limit ip t fails)

module _ (limit : ℕ) (pos : 0 < limit) (ip : String) where
  failures_of : Failures → List ℕ
  failures_of fails = or_default (lookup (throttle_key ip) fails) []

  -- A failure is added to those of its address, and the table keeps its limit.
  failures-record_login_fail :
      (now : ℕ) (fails : Failures)
      → failures_of (record_login_fail limit ip now fails) ≡ failures_of fails ++ now ∷ []
  unfolding failures_of record_login_fail put_last
  failures-record_login_fail now fails =
      let key = throttle_key ip in
      ap (λ o. or_default o [])
        (lookup-pop_oldest limit key _ (erase key fails) pos
          (lookup-erase key key fails ∙ rw (eq_refl key) refl))

  failures-fail_at :
      (ts : List ℕ) (fails : Failures)
      → failures_of (fail_at limit ip ts fails) ≡ failures_of fails ++ ts
  unfolding fail_at
  failures-fail_at [] fails = sym (append-nil _)
  failures-fail_at (t ∷ ts) fails =
      failures-fail_at ts (record_login_fail limit ip t fails)
      ∙ rw (failures-record_login_fail t fails) (append_assoc (failures_of fails) (t ∷ []) ts)

  -- For a table with room for one address: an address whose failures were cleared, and which then
  -- fails at the given times, is locked exactly while ten of those times lie in the window.
  pub login_locked-fail_at :
      (ts : List ℕ) (now : ℕ) (fails : Failures)
      → (login_locked ip now (fail_at limit ip ts (clear_login_fails ip fails))).0
        ≡ leb auth_fail_max (length (recent now ts))
  unfolding login_locked clear_login_fails failures_of
  login_locked-fail_at ts now fails =
      ap (λ l. leb auth_fail_max (length (recent now l)))
        (failures-fail_at ts (erase key fails) ∙ ap (λ o. or_default o [] ++ ts) cleared)
    where
      key : String
      key = throttle_key ip

      cleared : lookup key (erase key fails) ≡ none
      cleared = lookup-erase key key fails ∙ rw (eq_refl key) refl

-- Whatever the address, recording a failure leaves no more addresses than the limit.
pub length-record_login_fail :
    (limit : ℕ) (ip : String) (now : ℕ) (fails : Failures)
    → length (record_login_fail limit ip now fails) ≤ limit
unfolding record_login_fail
length-record_login_fail limit ip now fails = length-pop_oldest limit _
