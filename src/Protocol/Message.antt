-- ===== src/Protocol/Message.antt =====
-- The two packed structs of protocol/communication_protocol.{h,cpp} with their constructors, and
-- their images in memory. The fields stand one behind the other with no gap: an image is the bytes
-- of the fields, and NUL behind them up to `sizeof_message`.
use distributed_server_clien.Prelude.Bytes.{Bytes, c_str}
use distributed_server_clien.Prelude.{ℕ, ◌+◌, ◌-◌, ◌++◌, length, take, drop, take_d, replicate}
use distributed_server_clien.Protocol.{
  max_command_length, max_simple_data_size, max_complex_data_size, sizeof_uint64,
  simple_message_no_data_size, complex_message_no_data_size,
}

pub record ComplexMessage : Type 0 where
  pub command : Bytes
  pub message_seq : Bytes
  pub param : Bytes
  pub text : Bytes  -- the field `data`

pub record SimpleMessage : Type 0 where
  pub command : Bytes
  pub message_seq : Bytes
  pub text : Bytes  -- the field `data`

-- `fill_command`: the text, and NUL up to `max_command_length`. A longer text is copied whole.
unfoldable pub fill_command : Bytes → Bytes
fill_command str = str ++ replicate (max_command_length - length str) 0

-- `strncpy(this->data, data, n)` into an array of NUL.
unfoldable pub strncpy : Bytes → ℕ → Bytes
strncpy source n = take n (c_str source)

-- `ComplexMessage(message_seq, command, data, param)`; the words come in network byte order.
unfoldable pub complex_message : Bytes → Bytes → Bytes → Bytes → ComplexMessage
unfolding fill_command strncpy
complex_message message_seq command source param = record {
  command = fill_command command;
  message_seq = message_seq;
  param = param;
  text = strncpy source max_complex_data_size;
}

-- `SimpleMessage(message_seq, command, data)`.
unfoldable pub simple_message : Bytes → Bytes → Bytes → SimpleMessage
unfolding fill_command strncpy
simple_message message_seq command source = record {
  command = fill_command command;
  message_seq = message_seq;
  text = strncpy source max_simple_data_size;
}

-- The bytes of a struct from its first one on.
unfoldable pub complex_image : ComplexMessage → Bytes
complex_image m = m.command ++ (m.message_seq ++ (m.param ++ m.text))

unfoldable pub simple_image : SimpleMessage → Bytes
simple_image m = m.command ++ (m.message_seq ++ m.text)

-- The struct that lies over some bytes.
unfoldable pub complex_overlay : Bytes → ComplexMessage
complex_overlay bytes = record {
  command = take_d max_command_length bytes 0;
  message_seq = take_d sizeof_uint64 (drop max_command_length bytes) 0;
  param = take_d sizeof_uint64 (drop simple_message_no_data_size bytes) 0;
  text = take (max_complex_data_size + 1) (drop complex_message_no_data_size bytes);
}

unfoldable pub simple_overlay : Bytes → SimpleMessage
simple_overlay bytes = record {
  command = take_d max_command_length bytes 0;
  message_seq = take_d sizeof_uint64 (drop max_command_length bytes) 0;
  text = take (max_simple_data_size + 1) (drop simple_message_no_data_size bytes);
}

-- `(SimpleMessage*) &message`.
unfoldable pub as_simple : ComplexMessage → SimpleMessage
unfolding complex_image simple_overlay
as_simple m = simple_overlay (complex_image m)
