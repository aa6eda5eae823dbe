-- ===== src/Lib.antt =====
-- A multi-tenant shop on WhatsApp: customers browse, order and pay in a conversation, merchants keep
-- their catalog, coupons and orders in one PostgreSQL database, and Razorpay takes the payments.
--
-- The parts and how they meet. core/main.py receives a message and hands it, with the tenant, to
-- `handle_incoming` of core/commerce_flow.py. That reads the customer's session (core/history.py),
-- picks the handler of the session's state, and the handler calls db/repository.py, writes the
-- session and posts messages (core/whatsapp.py). Checkout, and a failed link, ask payments.py for a
-- payment link; Razorpay's webhook comes back through payments.py to `handle_payment_success` and
-- `handle_payment_failure`.
--
-- The modules:
--   Base            tests, lists, integers, texts, tables and numerals that the parts share
--   Db              db/schema.sql and the row classes of db/repository.py; Db.Tenants, Db.Products,
--                   Db.Orders, Db.Coupons, Db.Customers and Db.Checkout are its functions under
--                   their own names, the modules below these and Db.Isolation their laws
--   Phone           core/phone.py
--   Redis           what a Redis server is documented to do
--   Sessions        core/history.py: `get`, `set` and `reset` of `InMemorySessionStore`, and
--                   Sessions.Redis those of `RedisSessionStore`
--   Strings         core/strings.py: its table, `t` and `status_label`
--   Message         what core/whatsapp.py posts and what `parse_incoming_message` yields
--   World           the state of a handler (database, sessions, posted messages) and the actions on
--                   it; World.Keeps has the rules by which an invariant goes through an action
--   Payments        payments.py
--   Flow            core/commerce_flow.py: Flow.Rows (row ids, carts), Flow.Pages (product pages),
--                   Flow.Prompts (the other messages), Flow.Checkout, Flow.Shop and Flow.Orders (the
--                   handlers), Flow.Dispatch (`_handle_idle`, `handle_incoming`), Flow.Native
--                   (`handle_native_order`) and Flow.Webhooks; Flow.Invariant and its modules carry
--                   what the primitive actions keep over a whole turn
--   Reminders       reminders/scheduler.py; Reminders.Endpoint is `trigger_abandoned_cart_nudges` of
--                   core/main.py
--   PaymentWebhook  `receive_payment_webhook` of core/main.py
--   Inbox           the in-memory message lock and `_process_message` of core/main.py, and
--                   `InMemoryHistory.add` of core/history.py for one phone number;
--                   Inbox.Remote is both where there is a Redis server
--   MessageWebhook  `receive_message` of core/main.py and `validate_webhook_signature` of
--                   core/whatsapp.py; MessageWebhook.Payload is `parse_incoming_message`
--   Feed            catalog/feed.py
--   Onboarding      `_parse_csv_products` of admin/onboarding_wizard.py, which the portal calls too
--   Admin           admin/: Admin.Wizard is the rest of onboarding_wizard.py, Admin.Settings the
--                   routes of onboarding.py
--   Portal          portal/: Portal.Cookie and Portal.Password are session.py, Portal.Guard its guard
--                   and auth.py's login, Portal.Products, Portal.Coupons, Portal.Orders and
--                   Portal.Settings the routes of those files, Portal.Routes all of them under one
--                   request
--   Tests           a small shop on which the theorems are tried
--
-- How the program is written down. A handler is a function from a world to a result and a world. A
-- statement of SQL is a test on rows and a change of a row; a table is its rows in the order of
-- their ids with the next id of its sequence, which moves on when an insert is refused. A
-- transaction is one function of the database, as the row locks of the server make it one step. Rows
-- ordered by a time keep the order of their ids among equal times.
--
-- Numbers and texts. Money is a natural number of paise, in which NUMERIC(12, 2) counts, so prices
-- are taken to be zero or more, as the portal's forms require; a negative price of an imported CSV
-- file has no place in the table. A coupon's value is in hundredths. Stock is an integer. Times are
-- whole seconds. An id that is read from a text is an integer, and a negative one finds nothing.
-- `str.strip` knows Python's white space; `int` and `lower` know ASCII digits and letters, which is
-- exact for RESET_KEYWORDS. `Decimal` of Base.Decimal reads a text as Python does, with no bound on
-- its exponent, and Base.Csv is the csv module's default dialect. A message's texts are kept as calls
-- of `t` (core/strings.py) with their arguments; Strings has the templates and fills them.
--
-- What stands outside is an argument: the clock, the server's UPPER, whether Meta accepts a message,
-- the link that Razorpay gives or fails to give, HMAC, PBKDF2 and the random salt, the Redis server,
-- what NUMERIC(12, 2) makes of a number, and the decoded upload of a form; each is a function of what
-- it is asked. A failure of the gateway is a value. A Redis server keeps values rather than the texts
-- that `json` makes of them. MessageWebhook.Payload starts from what `json.loads` gives and yields
-- values of JSON; the turn's Reply has texts where the message had texts, so a reply whose id or
-- title is no text stays outside.
--
-- Every loop is structural recursion on its list, save `decimal_onto` of Base.Numeral, which writes
-- the digits of n on fuel n + 1; n has no more digits than that, and Base.Numeral.Laws reads the
-- number back.
--
-- Not modelled: routing and start-up, the HTTP calls, templates, connections and set-up, the
-- dashboard's figures, logout, the pages' HTML, and the converter script, which is run by hand; nor
-- an order whose quantities or amounts are more than INTEGER or NUMERIC(12, 2) hold, which the server
-- refuses, so that the transaction is rolled back.
pub mod Base
pub mod Db
pub mod Phone
pub mod Message
pub mod Redis
pub mod Sessions
pub mod Strings
pub mod World
pub mod Payments
pub mod Feed
pub mod Flow
pub mod Reminders
pub mod Onboarding
pub mod Admin
pub mod PaymentWebhook
pub mod Portal
pub mod Inbox
pub mod MessageWebhook
pub mod Tests
