-- ===== src/Plagiarism.antt =====
-- src/modules/plagiarism: what the similarity measures compare. Texts are lists of UTF-16 code units that
-- are normalized already; a score is a fraction, which the source divides out.
pub mod Ngrams
pub mod Matches
mod Tests
