-- ===== src/Tests.antt =====
-- Concrete runs, plans and machines, and the theorems of the library applied to them.
mod Data
mod Transitions
mod Paths
mod Suites
mod Resumes
mod Recoveries
mod Starts
mod Runs
mod Finishes
mod Controllers
mod Complex
mod WriterLocks
mod Workspaces
mod Bundles
mod Executions
