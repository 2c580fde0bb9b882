-- ===== src/Examples.antt =====
-- Concrete inputs of the results, a module per part of the program.
mod Quota
mod Queue
mod Rates
mod Runtime
mod Routing
mod Payload
mod Tools
mod Pool
mod Recovery
mod Access
mod Context
mod Resets
mod Chats
mod Research
