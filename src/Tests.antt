-- ===== src/Tests.antt =====
-- Runs of the model on concrete inputs, and each theorem at an input that meets its hypotheses.
mod Sdk
mod Wrapping
mod Registry
mod Routes
mod Keys
mod Requests
mod Devices
mod Tokens
mod Calls
mod Lists
mod Starts
mod Together
