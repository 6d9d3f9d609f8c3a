-- ===== src/Budget.antt =====
-- The budget of an execution: rs-zephyr-env/src/budget.rs.
use zephyr_vm.Prelude.{ℕ}

abbrev pub standard_fuel : ℕ
standard_fuel = 1_000_000_000

abbrev pub standard_write_max : ℕ
standard_write_max = 64_000

pub record DimensionLimits : Type 0 where
  pub fuel : ℕ
  pub write_max : ℕ

pub record BudgetImpl : Type 0 where
  pub limits : DimensionLimits

abbrev pub zephyr_standard : BudgetImpl
zephyr_standard = record {
  limits = record { fuel = standard_fuel; write_max = standard_write_max };
}

-- `set_fuel` is the store's; `infer_fuel` hands it the limit.
unfoldable pub infer_fuel : {A : Type 0} → BudgetImpl → (ℕ → A) → A
infer_fuel b set_fuel = set_fuel b.limits.fuel
