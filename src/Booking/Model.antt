-- ===== src/Booking/Model.antt =====
-- The rows that the booking services read and write: backend/src/bookings/booking.entity.ts,
-- backend/src/workspaces/workspace.entity.ts, backend/src/workspaces/maintenance-window.entity.ts.
-- Keys are numbers, a moment is its milliseconds since 1970, an amount its cents.
use Prim.Native.String.{String}
use hub_assist.Common.{ℕ, Bool, true, false, Option, List, ◌&&◌, ltb, Result}
use hub_assist.Pricing.Rules.{PriceRule}

pub data BookingStatus : Type 0 where
  pending confirmed cancelled completed : BookingStatus

pub data WorkspaceType : Type 0 where
  hot_desk dedicated_desk private_office meeting_room virtual hybrid : WorkspaceType

pub record Workspace : Type 0 where
  pub id : ℕ
  pub name : String
  pub kind : WorkspaceType
  pub capacity : ℕ
  pub price_per_hour : ℕ

pub record MaintenanceWindow : Type 0 where
  pub id : ℕ
  pub workspace_id : ℕ
  pub start_time : ℕ
  pub end_time : ℕ

-- `appliedRateSnapshot` and the row's own timestamps are written and never read; they are left out.
pub record Booking : Type 0 where
  pub id : ℕ
  pub workspace_id : ℕ
  pub user_id : ℕ
  pub start_time : ℕ
  pub end_time : ℕ
  pub status : BookingStatus
  pub total_amount : ℕ
  pub stellar_tx_hash : Option String
  pub recurrence_rule : Option String
  pub series_id : Option ℕ
  pub instance_index : Option ℕ
  pub refund_amount : Option ℕ

pub data OutboxEventType : Type 0 where
  stellar_escrow_create stellar_booking_confirmed : OutboxEventType

-- The payload of an outbox row that the booking service writes.
pub record OutboxEntry : Type 0 where
  pub event_type : OutboxEventType
  pub booking_id : ℕ
  pub user_id : ℕ
  pub workspace_id : ℕ
  pub total_amount : ℕ
  pub stellar_tx_hash : Option String

pub record CancellationPolicy : Type 0 where
  pub workspace_type : WorkspaceType
  pub full_refund_hours_before : ℕ
  pub partial_refund_percent : ℕ
  pub partial_refund_hours_before : ℕ

-- The tables, each as the list of its rows in the order in which the database returns them.
pub record Db : Type 0 where
  pub workspaces : List Workspace
  pub windows : List MaintenanceWindow
  pub rules : List PriceRule
  pub policies : List CancellationPolicy
  pub bookings : List Booking
  pub outbox : List OutboxEntry

-- `status IN (CONFIRMED, PENDING)`.
abbrev pub holds_seat : BookingStatus → Bool
holds_seat pending = true
holds_seat confirmed = true
holds_seat _ = false

-- `x.startTime < :endTime AND x.endTime > :startTime`.
abbrev pub ranges_overlap : ℕ → ℕ → ℕ → ℕ → Bool
ranges_overlap start_time end_time x_start x_end = ltb x_start end_time && ltb start_time x_end

pub record ConflictDetail : Type 0 where
  pub conflicting_booking_id : Option ℕ
  pub window_start : ℕ
  pub window_end : ℕ
  pub is_maintenance : Bool
  pub available : Option ℕ

pub data BookingError : Type 0 where
  workspace_not_found booking_not_found series_not_found : BookingError
  end_not_after_start : BookingError
  invalid_rrule no_occurrences too_many_instances : BookingError
  booking_conflict : ConflictDetail → BookingError
  payment_not_verified only_pending_confirmed not_authorized : BookingError

abbrev pub Bookings : Type 0 → Type 0
Bookings A = Result BookingError A
