-- ===== src/Sd.antt =====
-- packages/sd/src: the parts of the terminal client that are functions of their state.
pub mod Draft
