-- ===== src/Parse.antt =====
-- src/parse.c and include/msg.h: the tree of commands (Parse/Tree), the parts of a line
-- (Parse/Line), and what `parse` does with them (Parse/Dispatch).
pub mod Tree
pub mod Line
pub mod Dispatch
mod Samples
