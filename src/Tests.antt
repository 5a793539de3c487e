-- ===== src/Tests.antt =====
-- Concrete inputs for the theorems of the library.
mod Disk
mod Files
mod Pages
mod Processes
mod Text
mod Devices
mod Commands
mod Screens
mod Clockwork
mod Keys
mod Entry
mod Calling
mod Running
mod Starting
mod Lines
mod Listing
