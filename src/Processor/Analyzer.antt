-- ===== src/Processor/Analyzer.antt =====
-- `src/processor/analyzer.py`. A check's calls of `score.minus` are a list of deductions, in the order
-- in which they are made; Analysis puts them together.
pub mod Calls
pub mod Authentication
pub mod Headers
pub mod Delivery
pub mod Body
pub mod Analysis
pub mod Costs
pub mod Outage
