-- ===== src/Panels.antt =====
-- Small stores of the screen: store/riskStore.ts, store/uiStore.ts and the alerts and preferences of
-- store/alertStore.ts.
pub mod Risk
pub mod Interface
pub mod Alerts
