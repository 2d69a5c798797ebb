-- ===== src/Question.antt =====
-- app/question/selection/: how hard the next question is to be.
mod Difficulty
mod Adaptation
mod Tests
