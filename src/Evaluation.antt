-- ===== src/Evaluation.antt =====
-- app/evaluation/aggregation/: from the sections' scores to the recommendation.
mod Aggregation
mod Verdict
mod Sections
mod Totals
mod Tests
