-- ===== src/Protocol.antt =====
-- protocol/communication_protocol.{h,cpp}: the constants; the children hold the messages, the tests
-- of a message, and what is proved of both.
pub mod Texts
pub mod Message
pub mod Validation
pub mod Layout
use distributed_server_clien.Prelude.{ℕ, ◌+◌, ◌-◌, ◌*◌}
use distributed_server_clien.Prelude.Bytes.{Bytes, codes}

abbrev pub discover_request : Bytes
discover_request = codes "HELLO"

abbrev pub discover_response : Bytes
discover_response = codes "GOOD_DAY"

abbrev pub files_list_request : Bytes
files_list_request = codes "LIST"

abbrev pub files_list_response : Bytes
files_list_response = codes "MY_LIST"

abbrev pub file_get_request : Bytes
file_get_request = codes "GET"

abbrev pub file_get_response : Bytes
file_get_response = codes "CONNECT_ME"

abbrev pub file_remove_request : Bytes
file_remove_request = codes "DEL"

abbrev pub file_add_request : Bytes
file_add_request = codes "ADD"

abbrev pub file_add_refusal : Bytes
file_add_refusal = codes "NO_WAY"

abbrev pub file_add_acceptance : Bytes
file_add_acceptance = codes "CAN_ADD"

abbrev pub max_buffer_size : ℕ
max_buffer_size = 65536

abbrev pub sizeof_uint64 : ℕ
sizeof_uint64 = 8

abbrev pub max_command_length : ℕ
max_command_length = 10

abbrev pub max_simple_data_size : ℕ
max_simple_data_size = 65489

abbrev pub max_complex_data_size : ℕ
max_complex_data_size = max_simple_data_size - sizeof_uint64

abbrev pub simple_message_no_data_size : ℕ
simple_message_no_data_size = max_command_length + sizeof_uint64

abbrev pub complex_message_no_data_size : ℕ
complex_message_no_data_size = max_command_length + 2 * sizeof_uint64

-- `sizeof` of either packed struct: they are of one size.
abbrev pub sizeof_message : ℕ
sizeof_message = simple_message_no_data_size + (max_simple_data_size + 1)
