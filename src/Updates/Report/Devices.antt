-- ===== src/Updates/Report/Devices.antt =====
-- The report's counts of devices, from the results of each device.
use home_lab_hq.Base.{
  String, ◌≡◌, refl, sym, ap, ◌∙◌, inl, inr, Bool, true, some, List, [], ◌∷◌, arith, ◌==◌, eq_iff,
  eq_refl, not, map, length, if◌then◌else◌, any, Bool-cases,
}
use home_lab_hq.Dict.{Dict, lookup, values, keys}
use home_lab_hq.Dict.Laws.{IsDict}
use home_lab_hq.Updates.Report.{
  Check, Group, DeviceReport, Report, group_all, has_status, is_failing, is_successful,
  needs_reboot, device_report, count, count_checks, aggregate,
}
use home_lab_hq.Updates.Report.Counts.{count-sort_reports, aggregate-status}
use home_lab_hq.Updates.Report.Groups.{
  device_ids, results_of, all_unsupported, keys-group_all, group_all-IsDict, any-grouped,
  unsupported-grouped, count-all_of,
}

-- A count of the groups is a count of their devices, by what each group has.
count-groups :
    (q : DeviceReport → Bool) (r : String → Bool) (d : Dict Group)
    → IsDict d
    → ((id : String) (g : Group) → lookup id d ≡ some g → q (device_report g) ≡ r id)
    → count q (map device_report (values d)) ≡ count r (keys d)
unfolding lookup
count-groups q r [] h agrees = refl
count-groups q r ((j, g) ∷ d) h agrees =
    let here = agrees j g (rw (eq_refl j) refl) in
    let rest = count-groups q r d h.1 (λ id g' e. agrees id g' (later id g' e)) in
    ground (arith, here, rest)
  where
    later : (id : String) (x : Group) → lookup id d ≡ some x → lookup id ((j, g) ∷ d) ≡ some x
    later id x e = elim (Bool-cases (j == id)) [
      | inl same ↦ absurd (cc (h.0, e, ap (λ i. lookup i d) ((eq_iff j id).0 same)))
      | inr other ↦ rw other e
    ]

module _ (checks : List Check) where
  -- A count of the report's devices, in terms of their results.
  count-devices :
      (q : DeviceReport → Bool) (r : List Check → Bool)
      → ((id : String) (g : Group)
          → lookup id (group_all checks []) ≡ some g
          → q (device_report g) ≡ r (results_of id checks))
      → count q (aggregate checks).devices
        ≡ count (λ id. r (results_of id checks)) (device_ids checks)
  unfolding aggregate
  count-devices q r agrees =
      count-sort_reports q (map device_report (values (group_all checks [])))
      ∙ count-groups q (λ id. r (results_of id checks)) (group_all checks [])
          (group_all-IsDict checks [] tt) agrees
      ∙ ap (count (λ id. r (results_of id checks))) (keys-group_all checks [])

-- The report of the results of some checks: each count from the results alone.
pub record IsReportOf (checks : List Check) (report : Report) : Type 0 where
  pub failed_checks : report.failed_checks ≡ count is_failing checks
  pub successes : count_checks is_successful report.devices ≡ count is_successful checks
  pub status : report.status ≡ (
      if any is_failing checks
      then if any is_successful checks then "partial" else "failed"
      else "successful")
  pub devices : length report.devices ≡ length (device_ids checks)
  pub updates :
      report.devices_requiring_updates
      ≡ count (λ id. has_status "updates_available" (results_of id checks)) (device_ids checks)
  pub reboots :
      report.devices_requiring_reboot
      ≡ count (λ id. any needs_reboot (results_of id checks)) (device_ids checks)
  pub unreachable :
      report.unreachable_checks
      ≡ count (λ id. has_status "unreachable" (results_of id checks)) (device_ids checks)
  pub unsupported :
      report.unsupported_devices
      ≡ count (λ id. all_unsupported (results_of id checks)) (device_ids checks)
  pub checked :
      report.unique_devices_checked
      ≡ count (λ id. not (all_unsupported (results_of id checks))) (device_ids checks)

-- Every count of the report is the one that its results give. The failed and the successful checks
-- are counted by result, no result being lost or counted twice. There is one report for each device
-- of the results, and the other counts are of devices: those with an available update, with a
-- reason to reboot, with an unreachable result (`unreachableChecks` counts devices too), those with
-- unsupported results only, and the rest of them. The status is `successful` without a failing
-- result, `partial` if some result is a success as well, and else `failed`.
pub aggregate_lem : (checks : List Check) → IsReportOf checks (aggregate checks)
unfolding aggregate device_report
aggregate_lem checks =
    let (failed, successful, status) = aggregate-status checks in
    record {
      failed_checks = failed;
      successes = successful;
      status = status;
      devices =
          sym (count-all_of (aggregate checks).devices)
          ∙ count-devices checks (λ d. true) (λ xs. true) (λ id g e. refl)
          ∙ count-all_of (device_ids checks);
      updates =
          count-devices checks DeviceReport.requires_updates (has_status "updates_available")
            (λ id g. any-grouped (λ c. Check.status c == "updates_available") id checks g);
      reboots =
          count-devices checks DeviceReport.reboot_required (any needs_reboot)
            (λ id g. any-grouped needs_reboot id checks g);
      unreachable =
          count-devices checks DeviceReport.unreachable (has_status "unreachable")
            (λ id g. any-grouped (λ c. Check.status c == "unreachable") id checks g);
      unsupported =
          count-devices checks DeviceReport.unsupported all_unsupported
            (λ id g. unsupported-grouped id checks g);
      checked =
          count-devices checks (λ d. not (DeviceReport.unsupported d))
            (λ xs. not (all_unsupported xs)) (λ id g e. ap not (unsupported-grouped id checks g e));
    }
