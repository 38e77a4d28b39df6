-- ===== src/Lib.antt =====
-- A verification library of whatsapp-atendimentos-agendamentos, a server that takes bookings of
-- air-conditioning services over WhatsApp: a customer's message starts a conversation, the
-- conversation asks a booking port for estimates, free dates and times, and the port confirms,
-- cancels and moves appointments in PostgreSQL.
--
-- The replies are stored as messages, which a worker delivers. A business pays for the service by
-- checkouts and a subscription at the provider Asaas, whose webhooks change them; its users log in
-- under a limiter of attempts.
--
-- The library models the booking port, app/booking, from the value types to the table of
-- appointments, the identities of contacts, the worker of outbound messages, the checkouts and
-- subscriptions of app/billing, the limiter of app/auth, and the policy of app/conversations on stale
-- facts. The booking modules stand each over the ones before it, and so do those of billing; the parts
-- share the Prelude and the identifiers of Booking/Types:
--
--   Prelude             Boolean tests on numbers, lists measured by native numbers.
--   Booking/Types       app/booking/domain.py: enumerations and frozen dataclasses, one record each.
--   Booking/Estimator   app/booking/estimator.py: ServiceEstimator.estimate, cut at its comments.
--   Booking/Buffers     app/booking/availability.py: _operational_buffers and the booking notice.
--   Booking/Results     app/conversations/ports.py: the exceptions as a result type.
--   Booking/Slots       the clock arithmetic, _ceil_to_slot, _overlaps, _within_site_window.
--   Booking/Capacity    _CapacityData, _operating_ranges_for_day, _has_conflict.
--   Booking/Business    the columns of businesses, services and catalog items that planning reads.
--   Booking/Travel      app/booking/travel.py: same address, region rules, fallback, legs.
--   Booking/Additions   _apply_catalog_additions: the price of extra tubing.
--   Booking/Plan        _build_plan: service, travel, distance fees, handoff, reserved minutes.
--   Booking/Schedule    _schedule_aware_plan: the plan of one technician's day.
--   Booking/Starts      _load_capacity, _available_starts, _employees_for_exact_start.
--   Booking/Ledger      app/models: the tables a booking writes and the constraints on appointments.
--   Booking/Port        the tables a booking reads, parsing, _apply_snapshot, _confirmation.
--   Booking/Confirm     confirm.
--   Booking/Change      cancel_booking and reschedule_booking_atomic.
--   Booking/History     sequences of those operations on one store.
--   Booking/Examples    a small business on which all of this runs.
--   Automation/Identity app/automation/domain.py: identities of WhatsApp and their aliases.
--   Outbound/Types      app/models/domain.py: the columns of messages that the worker uses.
--   Outbound/Gates      app/repositories/outbound_tasks.py: the flags of lock_message.
--   Outbound/Rows       mark_sent, mark_failed, mark_retry_pending, app/whatsapp/retry_policy.py.
--   Outbound/Worker     app/tasks/outbound.py: process_outbound_message, and tasks in a row.
--   Outbound/Examples   a message, its worker and its guards.
--   Billing/Money       app/billing/service.py: _payment_value_cents.
--   Billing/Calendar    _cycle_end, with the civil calendar that it stands on.
--   Billing/Types       app/models/billing.py, app/models/auth.py and app/billing/catalog.py: the rows
--                       and the offers.
--   Billing/Refunds     _provider_refund_status, _resolve_initial_payment_reference.
--   Billing/Status      subscription_status and the reconciliation of a refund.
--   Billing/Requests    request_subscription_cancellation, request_guarantee_refund.
--   Billing/Cards       the first part of apply_payment_event on a subscription: the card checkout that a
--                       payment names.
--   Billing/Webhooks    apply_payment_event and apply_subscription_event on a subscription; with the
--                       requests, as sequences of operations in Webhooks/Runs.
--   Billing/Desk        the checkouts of a business, the one that blocks, cancel_checkout.
--   Billing/Prepare     how a new checkout is prepared for each method of payment.
--   Billing/Blocker     what create_checkout does about the checkout that blocks.
--   Billing/Create      create_checkout; with the desk, as sequences of operations in Create/Runs.
--   Billing/Activation  the payment by card that activates a subscription, on the rows of a business.
--   Billing/Entitlements
--                       app/billing/entitlements.py: the access that the rows of a business give.
--   Billing/Examples    a business in production, its refunds, checkouts and activation.
--   Auth/RateLimit      app/auth/rate_limit.py: LoginRateLimiter.
--   Auth/Examples       a limiter of a few attempts.
--   Conversations/ContextPolicy
--                       app/conversations/context_policy.py: invalidate_changed_facts,
--                       context_for_service_change.
--
-- A module's Laws, and the modules beside it, hold the theorems about it.
--
-- Units and bounds. In the bookings an instant or a local datetime is a number of microseconds since
-- 0001-01-01, a date a number of days since then, a price a number of cents, a length or distance a number of
-- hundredths; a product is rounded half to even as decimal.quantize does. Minutes are natural
-- numbers, as the columns' checks and the constructors' checks have them, and an instant less some
-- minutes stops at the beginning of the calendar, where Python raises OverflowError. The candidate
-- loop of _available_starts is recursion on fuel, one round for each slot of the grid up to the end
-- of the range: a candidate of the source's loop is at least one interval after the one before it and
-- still in the range, so it has no more of them. In billing a time is a civil date in UTC with a time of
-- day, since billing cycles add months; a payment's value is rounded half up, as the code says.
--
-- Errors are values: an operation returns the exception that leaves it, and then no store, because
-- its savepoints and its transaction are rolled back. In billing an error is an answer beside the rows,
-- which keep what was committed before it and the calls that were made to the provider. Two operations on one store are two steps, one
-- after the other.
--
-- Parameters. The route provider, the time zone, the text functions of Python (strip, normalize,
-- split, regular expressions), the parsing of dates and times, and the order in which PostgreSQL
-- checks two indexes are arguments; the theorems hold for all of them. So are the answers of the
-- WhatsApp client, whether a payload has the parts that its type needs, and what lock_message reads
-- of exclusions, entitlement and usage, anew for each task. In billing the clock, the new
-- identifiers, the answers of the provider and the settings are arguments of each operation; in the
-- context policy the values of a context and their comparison are.
--
-- Not modelled: the HTTP client of the route provider and its cache, the listings that only format
-- text for a reply, the generated notes of an appointment, the sequences of outbound messages, and
-- the other parts of the program (the dialogue of the conversations, operations, the control of
-- automation, the card payments, upgrades, Pix webhooks and usage of billing, sessions
-- and passwords, the HTTP API, WhatsApp, the migrations). A message counts as accepted when the client
-- returns the provider's id; a request that the provider accepts and whose answer is lost is one of
-- the temporary errors, which the model cannot tell from a refused one.
pub mod Prelude
pub mod Booking
pub mod Automation
pub mod Outbound
pub mod Billing
pub mod Auth
pub mod Conversations
