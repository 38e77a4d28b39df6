-- ===== src/Outbound.antt =====
-- app/repositories/outbound_tasks.py, app/whatsapp/retry_policy.py and app/tasks/outbound.py: the
-- worker that delivers a stored message. `Gates` holds its guards, `Rows` what it writes, `Worker`
-- the worker itself.
pub mod Types
pub mod Gates
pub mod Rows
pub mod Worker
mod Examples
