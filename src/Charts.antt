-- ===== src/Charts.antt =====
-- ui-react/src/components/widgets/shared: what a chart can draw of the rows of its source.
pub mod Numeric
pub mod Fields
pub mod Encoding
pub mod State
pub mod Types
pub mod Valid
pub mod Explained
mod Tests
