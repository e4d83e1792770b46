-- ===== src/Updates/Report.antt =====
-- `aggregate` of backend/morning_updates.py: the report of a run from the results of its checks.
-- No check has the source name `rebootRequired`, under which the report lists the reboot
-- reasons. The lists of `deviceIds`, which repeat the devices of each count, are left out, and
-- `casefold` is that of ASCII letters.
pub mod Counts
pub mod Groups
pub mod Devices
use home_lab_hq.Base.{
  ℕ, ◌+◌, String, Bool, true, false, Option, none, some, List, [], ◌∷◌, ◌++◌, ◌==◌, ◌&&◌, ◌||◌, not,
  any, all, keep, map, length, ltb, leb, if◌then◌else◌, lower, is_some,
}
use home_lab_hq.Dict.{Dict, upsert, values}
use home_lab_hq.Prune.{text_lt}
use home_lab_hq.Clients.Merge.{first_text}

-- One of `source_results`.
pub record Check : Type 0 where
  pub device_id : String
  pub name : String
  pub owner_id : String
  pub resource_type : String
  pub source : String
  pub status : String
  pub reboot_required : Option Bool
  pub summary : String

-- The checks of one device, by their source.
pub record Group : Type 0 where
  pub device_id : String
  pub name : String
  pub owner_id : String
  pub resource_type : String
  pub sources : Dict (List Check)

pub record DeviceReport : Type 0 where
  pub group : Group
  pub requires_updates : Bool
  pub reboot_required : Bool
  pub unreachable : Bool
  pub check_incomplete : Bool
  pub unsupported : Bool
  pub up_to_date : Bool
  pub reboot_sources : List Check

pub record Report : Type 0 where
  pub status : String
  pub devices : List DeviceReport
  pub unique_devices_checked : ℕ
  pub devices_requiring_updates : ℕ
  pub devices_requiring_reboot : ℕ
  pub failed_checks : ℕ
  pub unreachable_checks : ℕ
  pub unsupported_devices : ℕ

unfoldable pub new_group : Check → Group
new_group c = record {
  device_id = c.device_id;
  name = first_text c.name c.device_id;
  owner_id = c.owner_id;
  resource_type = c.resource_type;
  sources = [];
}

unfoldable pub add_check : Check → Group → Group
add_check c g = record g { sources = upsert c.source [] (λ checks. checks ++ c ∷ []) g.sources }

-- The loop over the results.
unfoldable pub group_all : List Check → Dict Group → Dict Group
unfolding new_group add_check
group_all [] merged = merged
group_all (c ∷ checks) merged =
    group_all checks (upsert c.device_id (new_group c) (add_check c) merged)

abbrev pub concat : {A : Type 0} → List (List A) → List A
concat [] = []
concat (xs ∷ rest) = xs ++ concat rest

-- `[item for values in device["sources"].values() for item in values]`
unfoldable pub checks_of : Group → List Check
checks_of g = concat (values g.sources)

abbrev pub has_status : String → List Check → Bool
has_status s = any (λ c. Check.status c == s)

unfoldable pub is_failing : Check → Bool
is_failing c = c.status == "failed" || c.status == "incomplete" || c.status == "unreachable"

unfoldable pub is_successful : Check → Bool
is_successful c = c.status == "up_to_date" || c.status == "updates_available"

-- `item.get("rebootRequired") is True`
unfoldable pub needs_reboot : Check → Bool
needs_reboot c = elim c.reboot_required [ none ↦ false | some b ↦ b ]

unfoldable pub device_report : Group → DeviceReport
unfolding checks_of is_failing needs_reboot
device_report g =
    let checks = checks_of g in
    let updates = has_status "updates_available" checks in
    let incomplete = any is_failing checks in
    record {
      group = g;
      requires_updates = updates;
      reboot_required = any needs_reboot checks;
      unreachable = has_status "unreachable" checks;
      check_incomplete = incomplete;
      unsupported = leb 1 (length checks) && all (λ c. Check.status c == "unsupported") checks;
      up_to_date = has_status "up_to_date" checks && not updates && not incomplete;
      reboot_sources = keep (λ c. is_some (Check.reboot_required c)) checks;
    }

-- The order of `sorted`, by the name without case and the device.
unfoldable pub report_before : DeviceReport → DeviceReport → Bool
unfolding text_lt
report_before a b =
    text_lt (lower a.group.name) (lower b.group.name)
    || (lower a.group.name == lower b.group.name && text_lt a.group.device_id b.group.device_id)

unfoldable pub insert_report : DeviceReport → List DeviceReport → List DeviceReport
unfolding report_before
insert_report x [] = x ∷ []
insert_report x (y ∷ ys) =
    let rest = insert_report x ys in if report_before x y then x ∷ y ∷ ys else y ∷ rest

unfoldable pub sort_reports : List DeviceReport → List DeviceReport
unfolding insert_report
sort_reports [] = []
sort_reports (x ∷ xs) = insert_report x (sort_reports xs)

abbrev pub count : {A : Type 0} → (A → Bool) → List A → ℕ
count p xs = length (keep p xs)

-- The number of checks of all devices that pass a test.
abbrev pub count_checks : (Check → Bool) → List DeviceReport → ℕ
count_checks p [] = 0
count_checks p (d ∷ devices) = count p (checks_of d.group) + count_checks p devices

unfoldable pub status_of : ℕ → ℕ → ℕ → String
status_of failed successful updates =
    if ltb 0 failed && (ltb 0 successful || ltb 0 updates)
    then "partial"
    else if ltb 0 failed
    then "failed"
    else "successful"

unfoldable pub aggregate : List Check → Report
unfolding group_all device_report sort_reports is_failing is_successful status_of
aggregate source_results =
    let devices = sort_reports (map device_report (values (group_all source_results []))) in
    let updates = count DeviceReport.requires_updates devices in
    let failed = count_checks is_failing devices in
    record {
      status = status_of failed (count_checks is_successful devices) updates;
      devices = devices;
      unique_devices_checked = count (λ d. not (DeviceReport.unsupported d)) devices;
      devices_requiring_updates = updates;
      devices_requiring_reboot = count DeviceReport.reboot_required devices;
      failed_checks = failed;
      unreachable_checks = count DeviceReport.unreachable devices;
      unsupported_devices = count DeviceReport.unsupported devices;
    }
