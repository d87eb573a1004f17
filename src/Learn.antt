-- ===== src/Learn.antt =====
-- packages/learn/src: the search over prompts (GEPA), with its candidates, memory and merges.
pub mod Doubles
pub mod Candidates
pub mod Selection
pub mod Dominance
pub mod Front
pub mod Picking
pub mod Memory
pub mod Remembering
pub mod Merge
pub mod Loop
mod Tests
