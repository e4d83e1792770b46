-- ===== src/Tests/Updates.antt =====
-- Concrete runs of the model of the scheduled update checks.
use home_lab_hq.Base.{
  ℕ, ◌+◌, String, ◌≡◌, ◌≢◌, refl, true, false, none, some, List, [], ◌∷◌, any, if◌then◌else◌, arith,
  eq_iff, All,
}
use home_lab_hq.Dict.{lookup}
use home_lab_hq.Errors.{Failure, ok, error, conflict}
use home_lab_hq.Updates.Reboot.{Probes, reboot_status, marker_of, required, not_required}
use home_lab_hq.Updates.Reboot.Decision.{IsCurrent, reboot_status_lem}
use home_lab_hq.Updates.Report.{Check, aggregate}
use home_lab_hq.Updates.Report.Devices.{IsReportOf, aggregate_lem}
use home_lab_hq.Updates.Lease.{
  UpdateRun, UpdateDoc, Attempt, new_run, acquire, Event, attempted, renewed, released, persisted,
  completed, apply, apply_all,
}
use home_lab_hq.Updates.Lease.Exclusion.{is_live, acquire_lem}
use home_lab_hq.Updates.Lease.Changes.{Traces}
use home_lab_hq.Updates.Lease.Unique.{IsUnique}
use home_lab_hq.Updates.Lease.Once.{HasRoom, acquire_once}
use home_lab_hq.Updates.Lease.Holding.{IsHeld, answers, held_lem}

abbrev attempt : Attempt
attempt = record {
  lease = 14400;
  max_runs = 90;
  run_id = "r2";
  token = "t2";
  now = 5000;
  iso = "2026-01-02";
}

abbrev abandoned : UpdateRun
abandoned = record {
  id = "r1";
  trigger = "scheduled";
  requested_by = "system";
  scheduled_for = "2026-01-01";
  started_at = "2026-01-01";
  completed_at = "";
  status = "running";
  fatal_error = "";
}

abbrev crashed : UpdateDoc
crashed = record {
  runs = ("r1", abandoned) ∷ [];
  lock = some (record { run_id = "r1"; token = "t1"; expires_at = 4000 });
}

abbrev active : UpdateDoc
active = record crashed { lock = some (record { run_id = "r1"; token = "t1"; expires_at = 9000 }) }

acquire_example :
    let (r, after) = acquire attempt "scheduled" "system" "2026-01-02" crashed in
    ((f : Failure) → r ≡ error f → after ≡ crashed)
    × (is_live 5000 crashed.lock ≡ true → r ≡ error conflict)
    × ((run : UpdateRun)
        → r ≡ ok run
        → (after.lock ≡ some (record { run_id = "r2"; token = "t2"; expires_at = 5000 + 14400 }))
          × (lookup "r2" after.runs ≡ some run)
          × (run ≡ new_run attempt "scheduled" "system" "2026-01-02"))
acquire_example = acquire_lem attempt "scheduled" "system" "2026-01-02" crashed refl

takes_over :
    (acquire attempt "scheduled" "system" "2026-01-02" crashed).0
    ≡ ok (new_run attempt "scheduled" "system" "2026-01-02")
unfolding acquire lookup home_lab_hq.Dict.insert
takes_over = refl

-- What happens while the run r2 is under way.
abbrev meanwhile : List Event
meanwhile =
    attempted (record attempt { run_id = "r3"; token = "t3"; now = 9000 }) "manual" "u1" ""
    ∷ renewed 14400 "r2" "t2" 12000
    ∷ persisted "r2" "partial"
    ∷ released "r1" "t1"
    ∷ attempted (record attempt { run_id = "r4"; token = "t4"; now = 26000 }) "manual" "u1" ""
    ∷ []

holding_example :
    let after = (acquire attempt "scheduled" "system" "2026-01-02" crashed).1 in
    IsHeld "r2" "t2" 26400 after (apply_all meanwhile after)
    × All (λ r. r ≡ error conflict) (answers meanwhile after)
    × ((stored : UpdateRun) × (lookup "r2" (apply_all meanwhile after).runs ≡ some stored)
        × (stored.trigger ≡ "scheduled")
        × (stored.scheduled_for ≡ "2026-01-02"))
holding_example =
    held_lem attempt "scheduled" "system" "2026-01-02" crashed
      (new_run attempt "scheduled" "system" "2026-01-02") meanwhile refl takes_over
      (omega arith, (tt, (tt, (refl, (omega arith, tt)))))

-- A run that ends, a second one that is stored in its place, and its end.
abbrev none_yet : UpdateDoc
none_yet = record { runs = []; lock = none }

abbrev small : Attempt
small = record attempt { max_runs = 1; run_id = "r1"; token = "t1" }

abbrev two_runs : List Event
two_runs =
    attempted small "scheduled" "system" "2026-01-02"
    ∷ completed "r1" "successful" "2026-01-02"
    ∷ released "r1" "t1"
    ∷ attempted (record small { run_id = "r2"; token = "t2"; now = 6000 }) "manual" "u1" ""
    ∷ completed "r2" "successful" "2026-01-02"
    ∷ released "r2" "t2"
    ∷ []

abbrev third : Attempt
third = record small { run_id = "r3"; token = "t3"; now = 7000 }

-- The bound on the runs has dropped the first one, and its schedule is run again.
runs_twice :
    (acquire third "scheduled" "system" "2026-01-02" (apply_all two_runs none_yet)).0
    ≡ ok (new_run third "scheduled" "system" "2026-01-02")
unfolding apply_all acquire lookup home_lab_hq.Dict.insert home_lab_hq.Dict.erase
runs_twice = refl

acquire_once_example :
    let doc = apply_all two_runs none_yet in
    IsUnique doc.runs
    × ((k : String) (run : UpdateRun) (later : Attempt) (trigger requested_by : String)
        → lookup k doc.runs ≡ some run
        → run.trigger ≡ "scheduled"
        → run.scheduled_for ≢ ""
        → (acquire later trigger requested_by run.scheduled_for doc).0 ≡ error conflict)
    × ((event : Event) → HasRoom event doc → Traces (apply event doc).runs doc.runs)
acquire_once_example = acquire_once two_runs none_yet refl

abbrev os_check : Check
os_check = record {
  device_id = "d1";
  name = "Server";
  owner_id = "u1";
  resource_type = "compute";
  source = "ansible";
  status = "updates_available";
  reboot_required = some true;
  summary = "3 packages";
}

abbrev lost_check : Check
lost_check = record os_check {
  device_id = "d2";
  name = "";
  status = "unreachable";
  reboot_required = none;
}

abbrev results : List Check
results = os_check ∷ lost_check ∷ record os_check { source = "native"; status = "up_to_date" } ∷ []

partly_done : (aggregate results).status ≡ "partial"
unfolding aggregate home_lab_hq.Dict.upsert home_lab_hq.Dict.insert home_lab_hq.Base.lower lookup
partly_done = refl

two_devices :
    let report = aggregate results in
    (report.unique_devices_checked ≡ 2)
    × (report.devices_requiring_updates ≡ 1)
    × (report.devices_requiring_reboot ≡ 1)
    × (report.unreachable_checks ≡ 1)
    × (report.unsupported_devices ≡ 0)
unfolding aggregate home_lab_hq.Dict.upsert home_lab_hq.Dict.insert home_lab_hq.Base.lower lookup
two_devices = (refl, refl, refl, refl, refl)

aggregate_example : IsReportOf results (aggregate results)
aggregate_example = aggregate_lem results

abbrev probes : Probes
probes = record {
  running_code = some 0;
  running = some "6.8.12-1-pve";
  pin_code = some 0;
  pin = none;
  boot_code = none;
  boot = record { recognized = false; pinned = none; selected = [] };
  need_code = some 127;
  need = record { status = none; running = none; expected = none };
  marker_code = some 1;
  installed_code = some 0;
  installed = some "6.8.12-1-pve";
}

up_to_date : (reboot_status probes).status ≡ not_required
unfolding reboot_status
up_to_date = refl

reboot_status_example :
    ((reboot_status probes).status ≡ not_required
      → IsCurrent probes × (marker_of probes ≢ some true))
    × (marker_of probes ≡ some true → (reboot_status probes).status ≡ required)
reboot_status_example = reboot_status_lem probes
