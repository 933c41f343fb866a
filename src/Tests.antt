-- ===== src/Tests.antt =====
-- Runs of the model on small inputs, and the theorems at them.
mod ByOrder
mod Samples
mod Push
mod Flow
mod La
mod Lists
mod Plain
mod Providers
mod Lost
mod Users
mod Send
mod Http
mod Settings
