-- ===== src/Booking.antt =====
-- Booking: app/booking, from its value types to the table of appointments.
pub mod Types
pub mod Estimator
pub mod Buffers
pub mod Results
pub mod Slots
pub mod Capacity
pub mod Business
pub mod Travel
pub mod Additions
pub mod Plan
pub mod Schedule
pub mod Starts
pub mod Ledger
pub mod Port
pub mod Confirm
pub mod Change
pub mod History
pub mod Examples
