-- ===== src/Reconciler/Loops.antt =====
-- pkg/reconciler/componentbuild/componentbuild.go: what a run that the reconciler has started leads
-- to when it has ended and is handed back.
pub mod Deployed
pub mod Notification
