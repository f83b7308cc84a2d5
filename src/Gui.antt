-- ===== src/Gui.antt =====
-- The graphical client (client/).
pub mod Marks
pub mod Address
pub mod FileList
pub mod State
pub mod Listing
pub mod Actions
pub mod Events
pub mod Calls
pub mod Connect
pub mod Transfer
pub mod Window
mod Tests
