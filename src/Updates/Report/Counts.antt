-- ===== src/Updates/Report/Counts.antt =====
-- The report counts every result once.
use home_lab_hq.Base.{
  ℕ, ◌+◌, ◌<◌, String, ◌≡◌, refl, sym, ap, ◌∙◌, inl, inr, Bool, true, none, some, List, [], ◌∷◌,
  ◌++◌, arith, ◌==◌, map, keep, length, ltb, if◌then◌else◌, any, keep-append, length-append,
  Option-cases,
}
use home_lab_hq.Dict.{Dict, lookup, insert, upsert, values}
use home_lab_hq.Updates.Report.{
  Check, Group, DeviceReport, new_group, add_check, group_all, concat, checks_of, is_failing,
  is_successful, device_report, insert_report, sort_reports, count, count_checks, status_of,
  aggregate,
}

module _ {V : Type 0} (weight : V → ℕ) where
  -- The weight of a dictionary's values.
  abbrev total : Dict V → ℕ
  total [] = 0
  total ((k, v) ∷ d) = weight v + total d

  total-insert :
      (k : String) (v : V) (d : Dict V)
      → total (insert k v d) + elim (lookup k d) [ none ↦ 0 | some w ↦ weight w ]
        ≡ total d + weight v
  unfolding insert lookup
  total-insert k v [] = omega arith
  total-insert k v ((j, w) ∷ d) = ground (arith, total-insert k v d)

  -- An update that adds to the weight of a value adds as much to the total.
  total-upsert :
      (k : String) (v : V) (f : V → V) (n : ℕ) (d : Dict V)
      → ((w : V) → weight (f w) ≡ weight w + n)
      → weight v ≡ 0
      → total (upsert k v f d) ≡ total d + n
  unfolding upsert
  total-upsert k v f n d adds zero = elim (Option-cases (lookup k d)) [
    | inl missing ↦
        let e = total-insert k (f v) d in rw missing (omega (arith, rw missing at e, adds v, zero))
    | inr (w, found) ↦
        let e = total-insert k (f w) d in rw found (omega (arith, rw found at e, adds w))
  ]

module _ (p : Check → Bool) where
  abbrev pub group_count : Group → ℕ
  group_count g = count p (checks_of g)

  pub count-append : (xs ys : List Check) → count p (xs ++ ys) ≡ count p xs + count p ys
  count-append xs ys = ap length (keep-append p xs ys) ∙ length-append (keep p xs) (keep p ys)

  count-concat : (d : Dict (List Check)) → count p (concat (values d)) ≡ total (count p) d
  count-concat [] = refl
  count-concat ((k, xs) ∷ d) =
      count-append xs (concat (values d)) ∙ ap (λ n. count p xs + n) (count-concat d)

  pub group_count-add_check :
      (c : Check) (g : Group) → group_count (add_check c g) ≡ group_count g + count p (c ∷ [])
  unfolding checks_of add_check
  group_count-add_check c g =
      count-concat (upsert c.source [] (λ checks. checks ++ c ∷ []) g.sources)
      ∙ total-upsert (count p) c.source [] (λ checks. checks ++ c ∷ []) (count p (c ∷ [])) g.sources
          (λ checks. count-append checks (c ∷ [])) refl
      ∙ ap (λ n. n + count p (c ∷ [])) (sym (count-concat g.sources))

  total-group_all :
      (checks : List Check) (d : Dict Group)
      → total group_count (group_all checks d) ≡ total group_count d + count p checks
  unfolding group_all
  total-group_all [] d = omega arith
  total-group_all (c ∷ checks) d =
      let rest = total-group_all checks (upsert c.device_id (new_group c) (add_check c) d) in
      let here =
        total-upsert group_count c.device_id (new_group c) (add_check c) (count p (c ∷ [])) d
          (group_count-add_check c) (unfold checks_of new_group in refl) in
      rest ∙ omega (arith, here, count-append (c ∷ []) checks)

  count_checks-insert_report :
      (x : DeviceReport) (xs : List DeviceReport)
      → count_checks p (insert_report x xs) ≡ count p (checks_of x.group) + count_checks p xs
  unfolding insert_report
  count_checks-insert_report x [] = refl
  count_checks-insert_report x (y ∷ ys) = ground (arith, count_checks-insert_report x ys)

  count_checks-sort_reports :
      (xs : List DeviceReport) → count_checks p (sort_reports xs) ≡ count_checks p xs
  unfolding sort_reports
  count_checks-sort_reports [] = refl
  count_checks-sort_reports (x ∷ xs) =
      count_checks-insert_report x (sort_reports xs)
      ∙ ap (λ n. count p (checks_of x.group) + n) (count_checks-sort_reports xs)

  count_checks-reports :
      (d : Dict Group) → count_checks p (map device_report (values d)) ≡ total group_count d
  unfolding device_report
  count_checks-reports [] = refl
  count_checks-reports ((k, g) ∷ d) = ap (λ n. group_count g + n) (count_checks-reports d)

  -- No check is lost or counted twice.
  pub count_checks-aggregate :
      (checks : List Check) → count_checks p (aggregate checks).devices ≡ count p checks
  unfolding aggregate
  count_checks-aggregate checks =
      count_checks-sort_reports (map device_report (values (group_all checks [])))
      ∙ count_checks-reports (group_all checks [])
      ∙ total-group_all checks []
      ∙ omega arith

count-insert_report :
    (q : DeviceReport → Bool) (x : DeviceReport) (xs : List DeviceReport)
    → count q (insert_report x xs) ≡ count q (x ∷ xs)
unfolding insert_report
count-insert_report q x [] = refl
count-insert_report q x (y ∷ ys) = ground (arith, count-insert_report q x ys)

pub count-sort_reports :
    (q : DeviceReport → Bool) (xs : List DeviceReport) → count q (sort_reports xs) ≡ count q xs
unfolding sort_reports
count-sort_reports q [] = refl
count-sort_reports q (x ∷ xs) =
    count-insert_report q x (sort_reports xs) ∙ ground (arith, count-sort_reports q xs)

pub count-any : {A : Type 0} (p : A → Bool) (xs : List A) → ltb 0 (count p xs) ≡ any p xs
count-any p [] = refl
count-any p (x ∷ xs) = ground (arith, count-any p xs)

-- An available update is a successful check.
updates-successful :
    (checks : List Check)
    → any (λ c. Check.status c == "updates_available") checks ≡ true
    → 0 < count is_successful checks
unfolding is_successful
updates-successful [] h = absurd (cc h)
updates-successful (c ∷ checks) h = ground (arith, updates-successful checks)

updates_lem :
    (d : Dict Group)
    → 0 < count DeviceReport.requires_updates (map device_report (values d))
    → 0 < count_checks is_successful (map device_report (values d))
unfolding device_report
updates_lem [] h = absurd (omega (arith, h))
updates_lem ((k, g) ∷ d) h = ground (arith, updates_lem d, updates-successful (checks_of g))

status_of_lem :
    (failed successful updates : ℕ)
    → (0 < updates → 0 < successful)
    → status_of failed successful updates
      ≡ (if ltb 0 failed then if ltb 0 successful then "partial" else "failed" else "successful")
unfolding status_of
status_of_lem failed successful updates h = ground (arith, h)

-- The counts of the results, and the status.
pub aggregate-status :
    (checks : List Check)
    → let report = aggregate checks in
      (report.failed_checks ≡ count is_failing checks)
      × (count_checks is_successful report.devices ≡ count is_successful checks)
      × (report.status ≡ (
          if any is_failing checks
          then if any is_successful checks then "partial" else "failed"
          else "successful"))
unfolding aggregate
aggregate-status checks =
    let failed = count_checks-aggregate is_failing checks in
    let successful = count_checks-aggregate is_successful checks in
    let unsorted = map device_report (values (group_all checks [])) in
    let updates = count-sort_reports DeviceReport.requires_updates unsorted in
    let implied : 0 < count DeviceReport.requires_updates (sort_reports unsorted)
        → 0 < count_checks is_successful (sort_reports unsorted) =
      λ h.
        rw (count_checks-sort_reports is_successful unsorted)
          (updates_lem (group_all checks []) (rw updates at h)) in
    (
      failed,
      successful,
      status_of_lem (count_checks is_failing (sort_reports unsorted))
            (count_checks is_successful (sort_reports unsorted)) _ implied
          ∙ rw (failed, successful, count-any is_failing checks, count-any is_successful checks)
              refl,
    )
