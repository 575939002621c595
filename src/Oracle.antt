-- ===== src/Oracle.antt =====
-- The synthetic stream as the oracle of the book stage: its messages, decoded and applied one after the
-- other to an empty desk as in `BasicTickToTradePipeline::apply_to_book`, against the quotes that the
-- stream keeps itself (`expected_quote`).
pub mod Lives
pub mod Accounts
pub mod Table
pub mod Side
pub mod Sizes
pub mod Depths
pub mod Replay
pub mod Follows
pub mod Totals
pub mod Taken
pub mod Quotes
pub mod Feed
pub mod Agrees
mod Tests
