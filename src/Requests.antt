-- ===== src/Requests.antt =====
-- The requests of src/server/api_json.cpp: from the bytes of a body to the values that the
-- services take. The JSON library and the role check of the zoo-keeper library are parameters.
pub mod Messages
pub mod Overrides
pub mod Parse
pub mod Accepted
pub mod Errors
