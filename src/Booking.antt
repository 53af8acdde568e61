-- ===== src/Booking.antt =====
-- backend/src/bookings: bookings of workspaces, their conflicts, series, refunds and life cycle.
pub mod Model
pub mod Conflict
pub mod Sorting
pub mod Sweep
pub mod ConflictLaws
pub mod Room
pub mod Capacity
pub mod Refund
pub mod Policies
pub mod Recurrence
pub mod Service
pub mod Lifecycle
pub mod Keys
pub mod Overbooking
pub mod Safety
pub mod SafeCalls
pub mod SafeUpdate
pub mod SeriesCancel
pub mod Reachable
pub mod Overbooked
pub mod Series
pub mod SoftDelete
mod Tests
mod RoomTests
