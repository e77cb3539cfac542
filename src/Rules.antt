-- ===== src/Rules.antt =====
-- community-ap-tools/src/review/rules.rs: the review rules that are run on an uploaded YAML.
pub mod Builtin
pub mod Review
pub mod Triggers
pub mod Text
pub mod Values
pub mod Syntax
pub mod Random
pub mod Bounds
pub mod Checks
pub mod Predicates
pub mod Tests
