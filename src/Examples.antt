-- ===== src/Examples.antt =====
-- Concrete runs that the theorems are applied to.
mod Fixtures
mod Streaming
mod Chatting
mod Sessions
mod Lists
mod Pages
mod Widgets
mod Renewals
mod Overwriting
mod Forms
mod Contracts
mod Panels
mod Screens
mod TwoTabs
mod Calls
mod CutOffs
