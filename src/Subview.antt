-- ===== src/Subview.antt =====
-- internal/subview/view.go: one response to a subscription client.
pub mod Request
pub mod Render
