-- ===== src/Notify.antt =====
-- The evaluation and firing of notification rules: go/cmd/sobs/notif_check.go.
pub mod Values
pub mod Evaluate
pub mod Payload
pub mod Check
pub mod Normal
pub mod Queries
pub mod Firing
pub mod Sample
pub mod Tests
