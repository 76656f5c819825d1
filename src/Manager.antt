-- ===== src/Manager.antt =====
-- manager/manager.c, the listing of the boxes, with utils/insertion-sort.c.
pub mod Insert
pub mod Place
pub mod Order
pub mod Listing
pub mod Management
pub mod Command
mod Examples
