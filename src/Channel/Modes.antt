-- ===== src/Channel/Modes.antt =====
-- MODE on a channel in src/channel.c: set_channel_mode with the helpers before it, and the
-- number that ircsprintf of src/sprintf_irc.c prints.
pub mod Text
pub mod Number
pub mod Run
pub mod Flags
pub mod Params
pub mod Masks
pub mod Loop
pub mod Step
mod Sound
pub mod Rights
pub mod Replay
pub mod Announce
pub mod Bounds
pub mod Links
pub mod Listing
mod Tests
