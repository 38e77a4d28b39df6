-- ===== src/Automation.antt =====
-- Automation: app/automation/domain.py.
pub mod Identity
