-- ===== src/Coding.antt =====
-- src/qfa/services/coding.py, coding_classifier.py and `parse_judge_response` of judge_scoring.py, by child.
pub mod Framework
pub mod Scores
pub mod Reply
pub mod Judging
pub mod Picking
pub mod Ranking
pub mod Assign
