-- ===== src/Portfolio.antt =====
-- beleqet-jobs-nextjs/app/portfolio/portfolio: the portfolio builder of the web client. `Types` is the
-- master profile, `Reorder` the moves of a drag and drop, `Builder` the hook that holds what is edited.
pub mod Types
pub mod Reorder
pub mod Builder
mod Tests
