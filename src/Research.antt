-- ===== src/Research.antt =====
-- store/stockProfileStore.ts and store/diagnosticsStore.ts: two stores whose actions wait for the
-- backend. An action that waits is two steps, and other steps may come between them.
pub mod Profile
pub mod Ownership
pub mod Diagnostics
pub mod Loading
mod Tests
