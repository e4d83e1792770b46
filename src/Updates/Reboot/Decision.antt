-- ===== src/Updates/Reboot/Decision.antt =====
-- When a device is said to need a reboot.
use home_lab_hq.Base.{
  String, ◌≡◌, ◌≢◌, refl, ap, ◌∙◌, Bool, true, false, Option, none, some, arith, ◌==◌, eq_iff, not,
}
use home_lab_hq.Updates.Reboot.{
  Probes, running_of, pin_of, need_signal, marker_of, installed_of, compare_installed,
  compare_unpinned, compare_kernels, required, not_required, decide, reboot_status,
}

abbrev pub pin_kernel : Option (String × String) → Option String
pin_kernel none = none
pin_kernel (some (kernel, kind)) = some kernel

-- Why a running kernel may be called current: the pin, else needrestart, else the installed image.
pub data IsCurrent (p : Probes) : Type 0 where
  by_pin : (k : String) → running_of p ≡ some k → pin_kernel (pin_of p) ≡ some k → IsCurrent p
  by_needrestart :
      (k : String)
      → running_of p ≡ some k
      → pin_of p ≡ none
      → need_signal p ≡ some false
      → IsCurrent p
  by_image :
      (k : String)
      → running_of p ≡ some k
      → pin_of p ≡ none
      → need_signal p ≡ none
      → installed_of p ≡ some k
      → IsCurrent p

decide_not_required :
    (m marker : Option Bool) (differs : String)
    → (decide m marker differs).0 ≡ not_required
    → (m ≡ some false) × (marker ≢ some true)
unfolding decide
decide_not_required (some true) marker differs h = absurd (cc h)
decide_not_required (some false) (some true) differs h = absurd (cc h)
decide_not_required (some false) (some false) differs h = (refl, λ e. absurd (cc e))
decide_not_required (some false) none differs h = (refl, λ e. absurd (cc e))
decide_not_required none (some true) differs h = absurd (cc h)
decide_not_required none (some false) differs h = absurd (cc h)
decide_not_required none none differs h = absurd (cc h)

decide_marked : (m : Option Bool) (differs : String) → (decide m (some true) differs).0 ≡ required
unfolding decide
decide_marked (some true) differs = refl
decide_marked (some false) differs = refl
decide_marked none differs = refl

not_differs : (j k : String) → ◌≡◌ {A = Option Bool} (some (not (j == k))) (some false) → k ≡ j
not_differs j k h = ground (arith, eq_iff j k)

compare_installed-IsCurrent :
    (p : Probes) (k : String) (image : Option String)
    → running_of p ≡ some k
    → pin_of p ≡ none
    → need_signal p ≡ none
    → installed_of p ≡ image
    → (compare_installed k image).mismatch ≡ some false
    → IsCurrent p
unfolding compare_installed
compare_installed-IsCurrent p k none r pin need found h = absurd (cc h)
compare_installed-IsCurrent p k (some image) r pin need found h =
    by_image k r pin need (found ∙ ap some (not_differs k image h))

compare_unpinned-IsCurrent :
    (p : Probes) (k : String) (s : Option Bool)
    → running_of p ≡ some k
    → pin_of p ≡ none
    → need_signal p ≡ s
    → (compare_unpinned p k s).mismatch ≡ some false
    → IsCurrent p
unfolding compare_unpinned
compare_unpinned-IsCurrent p k (some true) r pin need h = absurd (cc h)
compare_unpinned-IsCurrent p k (some false) r pin need h = by_needrestart k r pin need
compare_unpinned-IsCurrent p k none r pin need h =
    compare_installed-IsCurrent p k (installed_of p) r pin need refl h

compare_kernels-IsCurrent :
    (p : Probes) (r : Option String) (pin : Option (String × String))
    → running_of p ≡ r
    → pin_of p ≡ pin
    → (compare_kernels p r pin).mismatch ≡ some false
    → IsCurrent p
unfolding compare_kernels
compare_kernels-IsCurrent p none none er ep h = absurd (cc h)
compare_kernels-IsCurrent p none (some (kernel, kind)) er ep h = absurd (cc h)
compare_kernels-IsCurrent p (some k) none er ep h =
    compare_unpinned-IsCurrent p k (need_signal p) er ep refl h
compare_kernels-IsCurrent p (some k) (some (kernel, kind)) er ep h =
    by_pin k er (ap pin_kernel ep ∙ ap some (not_differs k kernel h))

-- A device is said to need no reboot only if its running kernel is known and is the pinned one, or
-- without a pin needrestart calls it current, or without either it is the installed one, and
-- Debian's marker does not ask for a reboot; and if the marker asks for one, a reboot is required.
pub reboot_status_lem :
    (p : Probes)
    → ((reboot_status p).status ≡ not_required → IsCurrent p × (marker_of p ≢ some true))
      × (marker_of p ≡ some true → (reboot_status p).status ≡ required)
unfolding reboot_status
reboot_status_lem p = (
  (λ h.
      let (mismatch, unmarked) = decide_not_required _ (marker_of p) _ h in
      (compare_kernels-IsCurrent p (running_of p) (pin_of p) refl refl mismatch, unmarked)),
  λ marked. rw marked (decide_marked _ _),
)
