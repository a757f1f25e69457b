-- ===== src/Tests.antt =====
-- Concrete runs of the definitions, and each property at an input where its hypotheses hold.
mod Ipc
mod Fs
mod Files
mod Trees
mod Worker
mod Ui
mod Text
mod Commands
mod Backend
mod Persist
mod Tui
mod Desk
