-- ===== src/Contract.antt =====
-- The command-line contract: crates/akua-core/src/cli_contract and crates/akuapkg-cli/src/contract.
pub mod Exit
pub mod Errors
pub mod Agent
pub mod Context
mod Tests
