-- ===== src/Workflow/TickBudget/Admission.antt =====
-- Admission and the backstop of app/workflow/cadence_budget.py.
use algo_trader.Prelude.{ℕ, ◌+◌, ◌≤◌, String, ◌≡◌, inl, inr, true, arith, Option-cases}
use algo_trader.Workflow.TickBudget.{
  scan_setup, CadenceBudget, TickSettings, scan_is_useful, prestart_of, admits, scan_fits,
}

useful_later :
    (b : CadenceBudget) (s : TickSettings) (bucket_name : String) (now later : ℕ)
    → scan_is_useful b (prestart_of s bucket_name) now ≡ true
    → later + scan_setup ≤ now + prestart_of s bucket_name
    → scan_is_useful b scan_setup later ≡ true
unfolding scan_is_useful
useful_later b s bucket_name now later fits by = ground (arith, fits, by)

-- A bucket that is admitted is not turned away by the backstop, as long as its own work before the
-- scan takes no longer than was charged for it at admission.
pub admits-scan_fits :
    (b : CadenceBudget) (s : TickSettings) (bucket_name : String) (now later : ℕ)
    → admits b bucket_name s now ≡ true
    → later + scan_setup ≤ now + prestart_of s bucket_name
    → scan_fits b later ≡ true
unfolding admits scan_fits
admits-scan_fits b s bucket_name now later admitted by = elim (Option-cases b.legacy_soft_budget) [
  | inl current ↦
      let fits : scan_is_useful b (prestart_of s bucket_name) now ≡ true = rw current at admitted in
      rw current (useful_later b s bucket_name now later fits by)
  | inr (soft, legacy) ↦ rw legacy
]
