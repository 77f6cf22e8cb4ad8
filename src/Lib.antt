-- ===== src/Lib.antt =====
-- A model of the core of the PrintVendo backend: the rows that its modules keep, the operations on
-- them, and what those operations keep true.
--
-- A student places an order for documents at a kiosk, pays for it by wallet or through Razorpay, and
-- the order becomes print tasks that the kiosk's device claims and reports on. Paper is taken from the
-- kiosk's tray as prints end, money can be given back, and a kiosk sells only while someone may
-- collect there. The parts and their files:
--
--   Prelude    shared types: integers, lists as tables, requests that may raise, transactions
--              (app/core/errors.py, app/core/db.py)
--   Money      app/core/money.py: `as_money`, `to_paise`, `from_paise`, `sum_money`
--   Identity   app/modules/identity: Models, Sessions (sessions.py), Links (tokens.py), Accounts
--              (passwords.py, guests.py, accounts.py, reset.py, verification.py), Visits (requests of
--              many people, one after another)
--   RateLimit  app/core/ratelimit.py: `MemoryCounter`
--   Billing    app/modules/billing: Models, Quotes, Discounts, Subscriptions, Purchase, Bands
--   Wallet     app/modules/wallet/ledger.py: `wallet_for`, `balance_of`, `_move` (`move`), `credit`,
--              `debit`; children: Balance, Movement, Replay
--   Printing   app/modules/printing: Options (page ranges, `PrintOptions.create` as `create`, and in
--              Workload the workload), Models, Tasks (tasks.py), Claims (claims.py, enqueue.py and
--              `task_for_kiosk`), Queue (the requests of all devices, in any order, on one table)
--   Kiosks     app/modules/kiosks: Models (models.py, enums.py), Paper (paper.py), Onboarding
--              (onboarding.py, and the stuck printer of commands.py), Commands (commands.py),
--              Pricing (pricing.py)
--   Orders     app/modules/orders: Quotes (quotes.py), Models, Paying and Progress (service.py,
--              refunds.py; `_derive_from_prints` is `derive_from_prints`)
--   Payments   app/modules/payments: Models, Gate (gate.py), Charges (charges.py), Refunds
--              (refunds.py; `refund` is `issue` here), Webhook (webhook.py), Earnings (earnings.py)
--   Wiring     app/api/deps.py: `KioskPaperLedger`, and the orders, behind the print queue,
--              as app/api/device/tasks.py and app/api/admin/refunds.py make them for a request
--
-- How they interact. Printing calls the kiosk's paper through `PaperLedger` and the orders through
-- `TaskOutcome`; both are parameters of the print queue, as they are protocols in the code, and the
-- theorems name what they need of them: that a deduction that is accepted takes the sheets it was
-- given. Wiring gives it `Kiosks.Paper.consume_paper`, through a ledger made anew for the kiosk of each
-- request, and `Orders.Progress.refresh_order_state`. Quotes use the workload of Printing and the
-- prices of Kiosks. A refund to the balance uses the wallet's `credit`; Razorpay and
-- the order's reaction (`RefundSink`) are parameters. `Payments.Gate` is the `BillingCheck` that the
-- stages of a kiosk ask. A webhook goes through the captures, failures and refunds of Payments; what a
-- captured payment means elsewhere is its parameter `Settlement`, as it is a protocol in the code.
-- Hashing, the tokens and ids that `secrets` and Razorpay draw, and the time zone are parameters or
-- arguments.
--
-- State and errors. A table is a list of rows, a request a function from the state to a result and
-- the state it leaves. An exception leaves what was written before it; `transaction` is the savepoint
-- or the session that undoes it. A row that the code changes in place is written back by its id. One
-- request is one step, and a run is a list of requests in any order: what two requests do that run at
-- the same moment and interleave is not modelled. The code guards against that where a device claims
-- a task or a command and where failed prints are confirmed, by row locks, and where a balance moves,
-- by a conditional UPDATE; elsewhere it locks no row. A moment is a number of seconds, and
-- of milliseconds in RateLimit; `now` is an argument, and `clock` beside it where the code asks for
-- the time once more.
--
-- Numbers. Sheets and paise are integers of any size: Python's are, and the bounds of the columns
-- (`Integer`, `Numeric(10, 2)`) are not modelled. An amount that `as_money` rounded is its number of
-- paise. A `Decimal` is a coefficient and a number of places; NaN, infinities and the context's 28
-- digits are left out. Characters of a page range are ASCII codes. The only fuel is that of
-- the decimal digits of a number n, in a page range and in a note: n + 1, and n has no more digits.
--
-- Not modelled: HTTP routes, schemas and jobs (they call what is modelled), Google sign-in, files,
-- PDFs, photos, mail, sockets, secrets and signatures, Razorpay's own behaviour, the counter in Redis,
-- order views and invoices. Nor are the placing of orders, the creation of plans, the registry of
-- kiosks and devices, and staffing, nor that an order's `payment_reference` is unique. Where two queued
-- tasks agree in position and time of creation, the table's order decides, as the database
-- may choose either.
pub mod Prelude
pub mod Money
pub mod Identity
pub mod RateLimit
pub mod Wallet
pub mod Billing
pub mod Printing
pub mod Kiosks
pub mod Payments
pub mod Orders
pub mod Wiring
