-- ===== src/Access.antt =====
-- proxy/main.go and proxy/admin.go: who may connect from where and to where, with the settings of
-- the environment and the operator's changes of the black lists. The token bucket of
-- golang.org/x/time/rate and the parsing of floats are parameters.
pub mod Sources
pub mod Targets
pub mod Settings
pub mod Examples
