-- ===== src/Discovery.antt =====
-- scamp/src/discovery: which services offer an action.
pub mod Announcement
pub mod Registry
pub mod Parse
pub mod Packet
pub mod Cache
pub mod Address
pub mod Reload
