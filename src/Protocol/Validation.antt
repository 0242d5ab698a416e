-- ===== src/Protocol/Validation.antt =====
-- `message_validation` of protocol/communication_protocol.cpp, which the client calls on replies.
-- An `invalid_message` is an error that names the text of the exception.
use distributed_server_clien.Prelude.Bytes.{Bytes, c_str, str_eq}
use distributed_server_clien.Prelude.{
  ℕ, ◌-◌, Bool, true, false, not, ◌&&◌, [], ◌∷◌, ltb, ◌==◌, if◌then◌else◌,
}
use distributed_server_clien.Words.{be64toh}
use distributed_server_clien.Protocol.Texts.{is_valid_data, is_expected_command}
use distributed_server_clien.Protocol.Message.{ComplexMessage, SimpleMessage}
use distributed_server_clien.Protocol.{complex_message_no_data_size, simple_message_no_data_size}

pub data InvalidMessage : Type 0 where
  too_small too_big invalid_command unknown_command : InvalidMessage
  invalid_seq invalid_data unexpected_data : InvalidMessage
  upload_without_filename fetch_without_filename remove_without_filename : InvalidMessage

pub data Checked : Type 0 where
  valid : Checked
  invalid : InvalidMessage → Checked

unfoldable pub is_empty : Bytes → Bool
is_empty [] = true
is_empty (b ∷ bs) = false

-- The overload for a ComplexMessage.
unfoldable pub validate_complex : ComplexMessage → ℕ → Bytes → ℕ → Bytes → Checked
unfolding is_empty
validate_complex message expected_seq expected_command message_size expected_data =
    if ltb message_size complex_message_no_data_size
    then invalid too_small
    else if not (is_expected_command message.command expected_command)
    then invalid invalid_command
    else if not (be64toh message.message_seq == expected_seq)
    then invalid invalid_seq
    else if not (is_valid_data message.text (message_size - complex_message_no_data_size))
    then invalid invalid_data
    else if not (is_empty expected_data) && not (str_eq expected_data (c_str message.text))
    then invalid unexpected_data
    else valid

-- The overload for a SimpleMessage.
unfoldable pub validate_simple : SimpleMessage → ℕ → Bytes → ℕ → Bytes → Checked
unfolding is_empty
validate_simple message expected_seq expected_command message_size expected_data =
    if ltb message_size simple_message_no_data_size
    then invalid too_small
    else if not (is_expected_command message.command expected_command)
    then invalid invalid_command
    else if not (be64toh message.message_seq == expected_seq)
    then invalid invalid_seq
    else if not (is_valid_data message.text (message_size - simple_message_no_data_size))
    then invalid invalid_data
    else if not (is_empty expected_data) && not (str_eq expected_data (c_str message.text))
    then invalid unexpected_data
    else valid
