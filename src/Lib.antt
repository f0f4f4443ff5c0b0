-- ===== src/Lib.antt =====
-- Greenlink: the club front end (frontend/src), modelled from its TypeScript: its tee sheet
-- (features/tee-sheet), the session and the API client under it.
--
-- The tee sheet shows one day of one course: rows (lanes) of slots, and in each slot the bookings
-- with their participants. The sheet derives what it shows from that record (Sheet, Row), patches
-- the cached record before the backend has answered and rolls the patch back on an error (Move,
-- Walkin, over Cache), strings two moves together to swap two participants (Swap), and keeps a lock
-- on the selected slot so that two operators do not work on the same one (SelectionLock, LockIndex).
-- A drop of a dragged entry or participant (Drop) starts a walk-in, a move or a swap. Every request
-- goes through the API client (Api), which refreshes an expired token, and the session (Session)
-- decides which pages are shown. The desk has a sheet of its own (GolfPage), with a drawer for the
-- bookings of a slot. The till (Pos), the player's order (PlayerOrder), the pricing form (Settings)
-- and the period of a target (Targets) stand on their own.
--
-- Types          frontend/src/types/bookings.ts, tee-sheet.ts, tee-sheet-locks.ts, session.ts, pos.ts,
--                orders.ts: the records. A field that is absent, undefined or null is `none`; a
--                union of string literals is a data type; `unknown` is a JSON value.
-- Sheet          frontend/src/features/tee-sheet/sheet-shared.tsx: occupancy (slotCapacity,
--                updateSlotFromBookings, ...) in Sheet/Occupancy, next action, quick actions, arrivals
--                and the finance buttons in Sheet/Status, slotBookingSegments in Sheet/Segments, and
--                optimisticallyTransitionBooking in Sheet/Transition.
-- Row            frontend/src/features/tee-sheet/components/TeeRow.tsx: buildPlayerCells, the state of
--                a row, its note; targetRowHasIntermediateSpace of use-participant-swap.ts.
-- Cache          the key of a day (hooks.ts) and, as an interface, what the hooks use of the query
--                cache of @tanstack/react-query, which is not part of the repository. Cache/Memory
--                is an instance, for the examples.
-- Move           use-move-participant.ts: the request, the day that is patched, the patch, the rollback.
-- Walkin         use-waitlist.ts and use-create-walkin-booking.ts: the payload, the optimistic booking
--                and its rollback.
-- Swap           use-participant-swap.ts: the reducer, the handlers and the callbacks of the requests
--                as functions on the hook; Swap/Protocol has the step relation between them.
-- SelectionLock  use-selection-lock.ts: each effect and callback as a function on the state and the
--                refs of the hook; SelectionLock/Runs has the step relation.
-- LockIndex      lock-utils.ts.
-- BookingMove    frontend/src/pages/admin-golf-tee-sheet-page.tsx: optimisticallyMoveBooking.
-- Lanes          the same file: mergeLaneSlotGroup and slotSurfacePriority.
-- Filters        the same file: the view filters.
-- GolfPage       the same file, the desk's own sheet: GolfPage/Party the party of a booking and its
--                payloads (with booking-party-editor.tsx), GolfPage/Slots the slots and columns of the
--                grid over GolfPage/Groups, GolfPage/Matching the search and the filters,
--                GolfPage/Drawer the drawer's state and the buttons, GolfPage/Drawer/Requests the
--                answers of the backend with the rollback of the cached day, GolfPage/Feedback their
--                messages, GolfPage/Batch the check-in and the no-show of many, GolfPage/Focus the
--                slot that the drawer shows.
-- Calendar       the dates of the browser: texts, days and civil dates of the Gregorian calendar.
-- DayShift       the shifts of a date by days that four files have, each its own.
-- Targets        frontend/src/features/targets/hooks.ts: normalizeTargetPeriodRange.
-- Settings       pages/admin-golf-settings-page.tsx: the draft of a pricing matrix and what is sent.
-- Shortcuts      use-tee-sheet-shortcuts.ts: the key listener as a function from a key press to the
--                calls that it makes; Shortcuts/Selection and Shortcuts/Keys have the proofs.
-- Lifecycle      use-checkin-booking.ts and use-mark-no-show.ts: the requests and the refetch.
-- Api            frontend/src/api/client.ts and auth/token-storage.ts: apiRequest with the fallback
--                between local backends, the refresh and the repetition; Api/Flight has the refresh
--                that requests share, Api/Locks the lock calls of api/operations.ts.
-- Drop           features/tee-sheet/dnd, the cells of TeeRow.tsx and handleDropOnSlot of
--                pages/admin-tee-sheet-page.tsx: from the drag to the calls that the drop makes.
-- Session        session/session-provider.tsx; Session/Runs has the step relation, Session/Guard has
--                components/protected-route.tsx, RootRedirect and the titles of routes.
-- Pos            pages/admin-pos-terminal-page.tsx: the cart of the till and its checkout, and in
--                Pos/Basket the baskets that it implements.
-- Page           pages/admin-tee-sheet-page.tsx: what the page keeps of its own, its effects, and the
--                Escape key with components/ui/PricePopover.tsx and ShortcutHelpModal.tsx.
-- PlayerOrder    pages/player-order-page.tsx: the quantities and the order placed of them.
-- Tests          concrete inputs, and the theorems applied to them.
--
-- Numbers are natural numbers: counts, capacities, columns and milliseconds are not negative, and
-- where the source subtracts the model writes out what it does below 0. The differences of two
-- dates are integers (Prelude/Int). `new Date(s).getTime()` of a time of day is a parameter, none
-- where the text is no date; a date without one is a day of Calendar, whose years the theorems bound
-- to four digits, since only those are read back. `Date.now()` is an argument. Loops are structural on
-- the lists that they go through; the one `while` runs for as many rounds as cells are missing, and
-- other fuel is that of `find_year` in Calendar, as many years as 365 and 366 days a year leave open.
--
-- What `fetch` answers is a parameter that may depend on all that was sent before, so are the URL
-- parser, the cast of a body to a lock, and the total of a price and a quantity, which the browser
-- computes in floating point.
--
-- A handler returns the new state, and an answer of the backend is an argument or an event. A
-- refetch of a query brings any later state of the cache; only its key is modelled, in Lifecycle.
-- Texts of the interface, class names, JSX and the focus and drag events of the browser are not
-- modelled; neither is the backend, which is another program.
pub mod Prelude
pub mod Types
pub mod Sheet
pub mod Row
pub mod Cache
pub mod Move
pub mod Walkin
pub mod Swap
pub mod SelectionLock
pub mod LockIndex
pub mod BookingMove
pub mod Lanes
pub mod Filters
pub mod Shortcuts
pub mod Lifecycle
pub mod Api
pub mod Drop
pub mod Session
pub mod Pos
pub mod Page
pub mod PlayerOrder
pub mod Calendar
pub mod DayShift
pub mod GolfPage
pub mod Targets
pub mod Settings
pub mod Tests
