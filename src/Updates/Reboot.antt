-- ===== src/Updates/Reboot.antt =====
-- `reboot_status` of backend/device_updates.py, from what its probes say. A probe is its exit code,
-- none where it could not run, and its output as the parsers of the module read it.
pub mod Decision
use Prim.Native.String.{◌++◌ as append}
use home_lab_hq.Base.{
  ℕ, String, Bool, true, false, Option, none, some, List, [], ◌∷◌, ◌++◌, ◌==◌, ◌&&◌, ◌||◌, not, any,
  nat_eq, is_some, if◌then◌else◌, or_default,
}

-- `_parse_boot_tool`
pub record BootTool : Type 0 where
  pub recognized : Bool
  pub pinned : Option String
  pub selected : List String

-- `_parse_needrestart`
pub record NeedRestart : Type 0 where
  pub status : Option ℕ
  pub running : Option String
  pub expected : Option String

pub record Probes : Type 0 where
  pub running_code : Option ℕ
  pub running : Option String
  pub pin_code : Option ℕ
  pub pin : Option (String × String)
  pub boot_code : Option ℕ
  pub boot : BootTool
  pub need_code : Option ℕ
  pub need : NeedRestart
  pub marker_code : Option ℕ
  pub installed_code : Option ℕ
  pub installed : Option String

-- `code == n`
abbrev pub exited : ℕ → Option ℕ → Bool
exited n none = false
exited n (some code) = nat_eq code n

-- `x if code == 0 else None`
abbrev pub read : {A : Type 0} → Option ℕ → Option A → Option A
read code x = if exited 0 code then x else none

-- The second choice where there is no first.
abbrev pub or_else : {A : Type 0} → Option A → Option A → Option A
or_else none y = y
or_else (some x) y = some x

unfoldable pub boot_of : Probes → BootTool
boot_of p =
    if exited 0 p.boot_code
    then p.boot
    else record { recognized = false; pinned = none; selected = [] }

unfoldable pub need_of : Probes → NeedRestart
need_of p =
    if exited 0 p.need_code
    then p.need
    else record { status = none; running = none; expected = none }

-- The kernel that runs.
unfoldable pub running_of : Probes → Option String
unfolding need_of
running_of p = or_else (read p.running_code p.running) (need_of p).running

-- The pinned kernel and the kind of its pin.
unfoldable pub pin_of : Probes → Option (String × String)
unfolding boot_of
pin_of p =
    or_else (read p.pin_code p.pin)
      (elim (boot_of p).pinned [ none ↦ none | some kernel ↦ some (kernel, "boot-tool") ])

-- `{1: False, 2: True, 3: True}.get(need["status"])`
unfoldable pub need_signal : Probes → Option Bool
unfolding need_of
need_signal p = elim (need_of p).status [
  | none ↦ none
  | some status ↦
      if nat_eq status 1
      then some false
      else if nat_eq status 2 || nat_eq status 3
      then some true
      else none
]

unfoldable pub marker_of : Probes → Option Bool
marker_of p =
    if exited 0 p.marker_code
    then some true
    else if exited 1 p.marker_code
    then some false
    else none

pub data Source : Type 0 where
  no_source pinned_kernel needrestart installed_kernel : Source

-- `target`, `source` and `kernel_mismatch`.
pub record Comparison : Type 0 where
  pub target : Option String
  pub source : Source
  pub mismatch : Option Bool

-- The installed kernel, where the boot tool's selection has it or is empty.
unfoldable pub installed_of : Probes → Option String
unfolding boot_of
installed_of p = elim (read p.installed_code p.installed) [
  | none ↦ none
  | some kernel ↦
      if elim (boot_of p).selected [
        | [] ↦ true
        | _ ∷ _ ↦ any (λ k. k == kernel) (boot_of p).selected
      ]
      then some kernel
      else none
]

-- The comparison with the installed kernel.
unfoldable pub compare_installed : String → Option String → Comparison
compare_installed running none = record { target = none; source = no_source; mismatch = none }
compare_installed running (some kernel) = record {
  target = some kernel;
  source = installed_kernel;
  mismatch = some (not (running == kernel));
}

-- The comparison without a pin, of a known running kernel.
unfoldable pub compare_unpinned : Probes → String → Option Bool → Comparison
unfolding need_of installed_of compare_installed
compare_unpinned p running (some signal) = record {
  target = or_else (need_of p).expected (if signal then none else some running);
  source = needrestart;
  mismatch = some signal;
}
compare_unpinned p running none = compare_installed running (installed_of p)

unfoldable pub compare_kernels : Probes → Option String → Option (String × String) → Comparison
unfolding compare_unpinned need_signal
compare_kernels p none none = record { target = none; source = no_source; mismatch = none }
compare_kernels p none (some (kernel, kind)) = record {
  target = some kernel;
  source = pinned_kernel;
  mismatch = none;
}
compare_kernels p (some running) none = compare_unpinned p running (need_signal p)
compare_kernels p (some running) (some (kernel, kind)) = record {
  target = some kernel;
  source = pinned_kernel;
  mismatch = some (not (running == kernel));
}

pub data Status : Type 0 where
  required not_required unknown : Status

pub record RebootStatus : Type 0 where
  pub status : Status
  pub reason : String
  pub running : Option String
  pub target : Option String

unfoldable pub mismatch_reason : Source → Option (String × String) → String
mismatch_reason pinned_kernel pin = append "The " (
    append (elim pin [ none ↦ "selected" | some (kernel, kind) ↦ kind ])
      " Proxmox kernel differs from the running kernel")
mismatch_reason no_source pin = "A newer Proxmox kernel is installed and selected for the next boot"
mismatch_reason needrestart pin =
    "A newer Proxmox kernel is installed and selected for the next boot"
mismatch_reason installed_kernel pin =
    "A newer Proxmox kernel is installed and selected for the next boot"

-- The decision from the comparison and the marker: the status and its reason.
unfoldable pub decide : Option Bool → Option Bool → String → Status × String
decide (some true) marker differs = (required, differs)
decide (some false) (some true) differs =
    (required, "Debian reports that a reboot is required after package updates")
decide none (some true) differs =
    (required, "Debian reports that a reboot is required after package updates")
decide (some false) (some false) differs =
    (not_required, "The running kernel matches the kernel selected for the next boot")
decide (some false) none differs =
    (not_required, "The running kernel matches the kernel selected for the next boot")
decide none (some false) differs =
    (unknown, "Could not determine the kernel selected for the next boot")
decide none none differs = (unknown, "Could not determine the kernel selected for the next boot")

-- The diagnostics and the list of signals are left out.
unfoldable pub reboot_status : Probes → RebootStatus
unfolding running_of pin_of compare_kernels marker_of decide mismatch_reason
reboot_status p =
    let pin = pin_of p in
    let compared = compare_kernels p (running_of p) pin in
    let decision = decide compared.mismatch (marker_of p) (mismatch_reason compared.source pin) in
    record {
      status = decision.0;
      reason = decision.1;
      running = running_of p;
      target = compared.target;
    }
