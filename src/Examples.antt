-- ===== src/Examples.antt =====
-- Tests of the definitions on concrete inputs, and the theorems at concrete inputs.
mod Data
mod Binder
mod Requests
mod Messages
mod Memory
mod Rpc
mod TcpServer
mod TcpSocket
mod Process
mod Service
mod Libserver
mod Starting
mod ServerFunctions
mod ExamplePrograms
