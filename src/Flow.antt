-- ===== src/Flow.antt =====
-- core/commerce_flow.py: its row ids, its products pages, its handlers, and their dispatch.
pub mod Rows
pub mod Pages
pub mod Prompts
pub mod Checkout
pub mod Shop
pub mod Orders
pub mod Dispatch
pub mod Native
pub mod Preview
pub mod Webhooks
pub mod Invariant
