-- ===== src/Auth/Throttle.antt =====
-- `login_locked`, `record_login_fail` and `clear_login_fails` of backend/auth.py. The failures are
-- an OrderedDict, least recently used first.
pub mod Lockout
use home_lab_hq.Base.{
  ℕ, zero, suc, ◌-◌, String, Bool, true, false, List, [], ◌∷◌, ◌++◌, ltb, leb, if◌then◌else◌,
  length, keep, or_default, Option, none, some,
}
use home_lab_hq.Dict.{Dict, lookup, insert, erase}

abbrev pub auth_fail_window : ℕ
auth_fail_window = 300

abbrev pub auth_fail_max : ℕ
auth_fail_max = 10

abbrev pub Failures : Type 0
Failures = Dict (List ℕ)

-- `s[:n]`
pub truncate : ℕ → String → String
truncate zero s = ""
truncate (suc n) String.[] = ""
truncate (suc n) (String.◌∷◌ c s) = String.◌∷◌ c (truncate n s)

-- `str(ip or "")[:128]`
unfoldable pub throttle_key : String → String
unfolding truncate
throttle_key ip = truncate 128 ip

-- `d[k] = v; d.move_to_end(k)`
unfoldable pub put_last : {V : Type 0} → String → V → Dict V → Dict V
put_last k v d = erase k d ++ (k, v) ∷ []

-- `while len(d) > limit: d.popitem(last=False)`
unfoldable pub pop_oldest : {V : Type 0} → ℕ → Dict V → Dict V
pop_oldest limit [] = []
pop_oldest limit (x ∷ d) =
    let rest = pop_oldest limit d in if ltb limit (length (x ∷ d)) then rest else x ∷ d

unfoldable pub recent : ℕ → List ℕ → List ℕ
recent now = keep (λ t. ltb (now - t) auth_fail_window)

unfoldable pub login_locked : String → ℕ → Failures → Bool × Failures
unfolding recent
login_locked ip now fails =
    let key = throttle_key ip in
    let kept = recent now (or_default (lookup key fails) []) in
    (
      leb auth_fail_max (length kept),
      elim kept [ [] ↦ erase key fails | t ∷ ts ↦ put_last key (t ∷ ts) fails ],
    )

-- `limit` is `_AUTH_FAIL_KEYS_MAX`, which is at least 100.
unfoldable pub record_login_fail : ℕ → String → ℕ → Failures → Failures
record_login_fail limit ip now fails =
    let key = throttle_key ip in
    pop_oldest limit (put_last key (or_default (lookup key fails) [] ++ now ∷ []) fails)

unfoldable pub clear_login_fails : String → Failures → Failures
clear_login_fails ip fails = erase (throttle_key ip) fails
