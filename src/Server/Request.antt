-- ===== src/Server/Request.antt =====
-- What the server makes of a datagram: `Server::message_validation` and the choice of a handler in
-- `Server::run` (server/server.cpp).
pub mod Decoding
use distributed_server_clien.Prelude.Bytes.{Bytes, c_str, str_eq}
use distributed_server_clien.Prelude.{ℕ, Bool, Option, none, some, ltb, ◌==◌, if◌then◌else◌}
use distributed_server_clien.Words.{be64toh}
use distributed_server_clien.Socket.Udp.{recvfrom_complex}
use distributed_server_clien.Protocol.Texts.{is_valid_string}
use distributed_server_clien.Protocol.Message.{ComplexMessage, SimpleMessage, as_simple}
use distributed_server_clien.Protocol.Validation.{
  Checked, valid, invalid, InvalidMessage, too_small, too_big, invalid_command, unknown_command,
  upload_without_filename, fetch_without_filename, remove_without_filename,
}
use distributed_server_clien.Protocol.{
  discover_request, files_list_request, file_get_request, file_remove_request, file_add_request,
  max_command_length, simple_message_no_data_size, complex_message_no_data_size,
}

-- `message.command == text`, a comparison of C strings.
unfoldable pub command_is : Bytes → Bytes → Bool
command_is command expected = str_eq (c_str command) expected

-- The branch for every command but `file_add_request`; it tests for that one again.
unfoldable pub validate_simple_request : Bytes → ℕ → Checked
validate_simple_request command message_length =
    if ltb message_length simple_message_no_data_size
    then invalid too_small
    else if command_is command discover_request
    then (if ltb simple_message_no_data_size message_length then invalid too_big else valid)
    else if command_is command files_list_request
    then valid
    else if command_is command file_add_request
    then (if message_length == simple_message_no_data_size
        then invalid upload_without_filename
        else valid)
    else if command_is command file_get_request
    then (if message_length == simple_message_no_data_size
        then invalid fetch_without_filename
        else valid)
    else if command_is command file_remove_request
    then (if message_length == simple_message_no_data_size
        then invalid remove_without_filename
        else valid)
    else invalid unknown_command

-- `Server::message_validation`.
unfoldable pub validate_request : ComplexMessage → ℕ → Checked
validate_request message message_length =
    if is_valid_string message.command max_command_length
    then (if command_is message.command file_add_request
        then (if ltb message_length complex_message_no_data_size then invalid too_small else valid)
        else validate_simple_request message.command message_length)
    else invalid invalid_command

-- The handlers that `run` may call, with their arguments; `fetch` stands for the test
-- `is_in_storage` and the call behind it.
pub data Request : Type 0 where
  upload : (message_seq : ℕ) (filename : Bytes) (file_size : ℕ) → Request
  discover : (message_seq : ℕ) → Request
  files_list : (message_seq : ℕ) (pattern : Bytes) → Request
  fetch : (message_seq : ℕ) (filename : Bytes) → Request
  remove : (filename : Bytes) → Request

pub data Received : Type 0 where
  skipped : InvalidMessage → Received  -- `package_skipping`
  ignored : Received  -- no branch of `run` is for the command
  request : Request → Received

unfoldable pub choose_simple : SimpleMessage → Received
choose_simple message =
    if command_is message.command discover_request
    then request (discover (be64toh message.message_seq))
    else if command_is message.command files_list_request
    then request (files_list (be64toh message.message_seq) (c_str message.text))
    else if command_is message.command file_get_request
    then request (fetch (be64toh message.message_seq) (c_str message.text))
    else if command_is message.command file_remove_request
    then request (remove (c_str message.text))
    else ignored

-- The branches of `run` behind a valid message.
unfoldable pub choose_handler : ComplexMessage → Received
choose_handler message =
    if command_is message.command file_add_request
    then request (upload (be64toh message.message_seq) (c_str message.text) (be64toh message.param))
    else choose_simple (as_simple message)

-- The body of the loop of `run`, from the message up to the handler.
unfoldable pub decode_request : ComplexMessage → ℕ → Received
decode_request message message_length = elim (validate_request message message_length) [
  | invalid reason ↦ skipped reason
  | valid ↦ choose_handler message
]

-- One round of the loop of `run`, from the datagram on; `none` is a failure of the socket, after
-- which the loop goes on.
unfoldable pub receive_request : Option Bytes → Option Received
receive_request datagram = elim (recvfrom_complex datagram) [
  | none ↦ none
  | some (message, message_length) ↦ some (decode_request message message_length)
]
