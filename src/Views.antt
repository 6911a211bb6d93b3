-- ===== src/Views.antt =====
-- The pure rules of the two applications: what a page shows of the rows that the API gives.
pub mod Statement
pub mod Prices
pub mod AuditDiff
