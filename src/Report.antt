-- ===== src/Report.antt =====
-- src/report.rs: the dates, the tables and the text of the report.
pub mod Utc
pub mod Table
pub mod Rendered
pub mod Printed
