-- ===== src/PolicyContract.antt =====
-- src/watcher/policy_contract.py: the validation of a policy, which collects every error. A function
-- that appends to a list of errors gives its value together with the errors that it appends.
pub mod Values
pub mod Sections
pub mod Policy
pub mod Bounds
pub mod Hours
pub mod Accepted
mod Tests
