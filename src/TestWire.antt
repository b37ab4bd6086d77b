-- ===== src/TestWire.antt =====
-- The records that a test program in the kernel leaves for the test runner:
-- sarena-shared-test/src/wire.rs and constants.rs. Bytes are numbers below 256.
pub mod Writer
pub mod Reader
pub mod Runner
pub mod Codec
pub mod Reads
pub mod Writes
pub mod Ending
pub mod Goes
pub mod RoundTrip
mod Tests
use sarena.Prelude.{
  ℕ, ◌+◌, ◌*◌, ◌/◌, ◌%◌, zero, suc, Option, none, some, List, [], ◌∷◌, ◌==◌, if◌then◌else◌,
}

abbrev pub wire_version : ℕ
wire_version = 1

abbrev pub test_result_map_size : ℕ
test_result_map_size = 8192

pub data Tag : Type 0 where
  version test_name test_file test_status log_fmt log_arg log_line : Tag

-- `tag as u8`.
abbrev pub tag_code : Tag → ℕ
tag_code version = 0x01
tag_code test_name = 0x10
tag_code test_file = 0x11
tag_code test_status = 0x13
tag_code log_fmt = 0x20
tag_code log_arg = 0x21
tag_code log_line = 0x22

unfoldable pub tag_from_u8 : ℕ → Option Tag
tag_from_u8 v =
    if v == 0x01
    then some version
    else if v == 0x10
    then some test_name
    else if v == 0x11
    then some test_file
    else if v == 0x13
    then some test_status
    else if v == 0x20
    then some log_fmt
    else if v == 0x21
    then some log_arg
    else if v == 0x22
    then some log_line
    else none

pub data TestStatus : Type 0 where
  pass fail skip framework_error : TestStatus

abbrev pub status_code : TestStatus → ℕ
status_code pass = 101
status_code fail = 102
status_code skip = 103
status_code framework_error = 105

unfoldable pub status_from_u8 : ℕ → TestStatus
status_from_u8 v =
    if v == 101 then pass else if v == 102 then fail else if v == 103 then skip else framework_error

-- `to_le_bytes` of a number of `n` bytes, and `from_le_bytes`.
unfoldable pub to_le_bytes : ℕ → ℕ → List ℕ
to_le_bytes zero v = []
to_le_bytes (suc n) v = (v % 256) ∷ to_le_bytes n (v / 256)

unfoldable pub from_le_bytes : List ℕ → ℕ
from_le_bytes [] = 0
from_le_bytes (b ∷ bs) = b + 256 * from_le_bytes bs
