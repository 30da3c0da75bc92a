-- ===== src/Policy.antt =====
-- api/pkg/policy: the authorisation policies, parsed from text and run against credentials.
pub mod Check
pub mod Exec
pub mod Rules
pub mod Leaves
pub mod Ranks
pub mod Token
pub mod Parse
pub mod Enforcer
mod Tests
