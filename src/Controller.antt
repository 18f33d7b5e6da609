-- ===== src/Controller.antt =====
-- EfaxController of efax_controller.h and efax_controller.cpp, which sends and receives faxes with the
-- efax program: its state, its files, its sessions, and what it does when efax ends.
pub mod Types
pub mod Files
pub mod Save
pub mod Session
pub mod Timer
pub mod Control
pub mod Run
