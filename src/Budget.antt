-- ===== src/Budget.antt =====
-- Work budgets: jobs/budget.py and storage/work_budgets.py.
pub mod Policy
pub mod Calendar
pub mod Ledger
pub mod Reserve
pub mod Accounting
pub mod Bounds
pub mod Settle
pub mod Refund
pub mod Administer
pub mod Jobs
pub mod Revisions
pub mod Admitted
pub mod Resume
pub mod Examples
