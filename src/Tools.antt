-- ===== src/Tools.antt =====
-- The tools that are commands: src/server/command_tools.cpp and the configuration of a tool in
-- src/server/config.hpp. The file system, the environment and the system calls are parameters.
pub mod Schema
pub mod Supported
pub mod Prepare
pub mod Search
pub mod Environment
pub mod Capture
pub mod Loop
pub mod Run
pub mod Output
pub mod Finish
pub mod Delivered
pub mod Provider
use zoo_keeper_server.Prelude.{ℕ, Bytes, Bool, Option, List}

-- `env` is a `std::map`: its entries in the order of the keys.
pub record CommandToolConfig (J : Type 0) : Type 0 where
  pub name : Bytes
  pub description : Bytes
  pub parameters_schema : J
  pub command : List Bytes
  pub working_directory : Option Bytes
  pub inherit_environment : Bool
  pub env : List (Bytes × Bytes)
  pub timeout_ms : ℕ
