-- ===== src/Chars.antt =====
-- src/match.c and include/irc_string.h: character tables, and what holds of them.
pub mod Tables
pub mod Folding
