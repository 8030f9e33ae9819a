-- ===== src/Tests.antt =====
-- Runs of the code on concrete inputs, and each theorem applied at one.
mod Requests
mod Virtual
mod Devices
mod Conn
mod Server
mod Pool
mod Remote
mod Life
mod Client
mod Events
mod Bench
