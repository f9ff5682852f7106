-- ===== src/KataSeal.antt =====
-- kata_seal.py, the tool with which a miner seals provider keys to a room. A `SystemExit` is given by
-- which of the tool's errors it is; `unhandled` is another exception.
pub mod Keys
pub mod Room
pub mod Main
pub mod Files
pub mod Written
pub mod Found
pub mod Accepted
pub mod Verified
pub mod Opened
pub mod Honest

pub data SealError : Type 0 where
  -- `load_api_key` and `collect_keys`
  unreadable_key_file not_regular_file open_key_file empty_key : SealError
  unknown_source both_sources key_length control_character : SealError
  -- the arguments
  no_providers repeated_provider invalid_provider malformed_source repeated_source : SealError
  multi_key_form bad_measurement not_directory profile_in_single_mode empty_profile : SealError
  unbound_bundle : SealError
  -- the room
  bad_room_url large_response bad_document missing_pubkey : SealError
  malformed_quote not_tdx incomplete_quote unhealthy_status wrong_measurement : SealError
  malformed_pubkey unbound_pubkey : SealError
  unhandled : SealError
