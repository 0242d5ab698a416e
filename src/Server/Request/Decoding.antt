-- ===== src/Server/Request/Decoding.antt =====
-- What the server reads from a datagram that a client sent.
use distributed_server_clien.Prelude.Bytes.{
  Bytes, NoNul, c_str, str_eq, c_str-append, c_str_of_NoNul,
}
use distributed_server_clien.Prelude.{
  ℕ, ◌+◌, ◌-◌, ◌≤◌, ◌<◌, ◌^◌, ◌≡◌, refl, ap, ◌∙◌, true, false, some, [], ◌++◌, arith, length,
  replicate,
}
use distributed_server_clien.Words.{htobe64, be64toh-htobe64}
use distributed_server_clien.Wire.{recvfrom-as_simple, recvfrom_complex_lem}
use distributed_server_clien.Protocol.Texts.{is_valid_string}
use distributed_server_clien.Protocol.Message.{
  ComplexMessage, SimpleMessage, fill_command, as_simple,
}
use distributed_server_clien.Protocol.Validation.{valid}
use distributed_server_clien.Protocol.{
  discover_request, files_list_request, file_get_request, file_remove_request, file_add_request,
}
use distributed_server_clien.Server.Request.{
  command_is, validate_simple_request, validate_request, upload, discover, files_list, fetch,
  remove, request, choose_simple, choose_handler, decode_request, receive_request,
}

-- What a command needs so that the server takes it for a request with a SimpleMessage.
record IsSimple (command name : Bytes) : Type 0 where
  fits : length command ≤ 10
  padded : is_valid_string (fill_command command) 10 ≡ true
  not_add : command_is (fill_command command) file_add_request ≡ false
  accepted : validate_simple_request (fill_command command) (18 + length name) ≡ valid

decode_simple :
    (m : ComplexMessage) (n : ℕ) (c : Bytes)
    → m.command ≡ c
    → is_valid_string c 10 ≡ true
    → command_is c file_add_request ≡ false
    → validate_simple_request c n ≡ valid
    → decode_request m n ≡ choose_simple (as_simple m)
unfolding decode_request validate_request choose_handler
decode_simple m n c e v a k = ground arith

module _ (seq : ℕ) (command name : Bytes) (plain : NoNul name) (room : length name ≤ 65489) where
  -- The fields of the message that the handler of a simple request is chosen by.
  abbrev received : SimpleMessage
  received = record {
    command = fill_command command;
    message_seq = htobe64 seq;
    text = name ++ replicate (8 - length name) 0;
  }

  receive_simple :
      IsSimple command name
      → receive_request (some (fill_command command ++ (htobe64 seq ++ name)))
        ≡ some (choose_simple received)
  unfolding receive_request
  receive_simple h =
      let (m, got, c, simple) = recvfrom-as_simple seq command name h.fits plain room in
      let decoded =
        decode_simple m (18 + length name) (fill_command command) c h.padded h.not_add h.accepted
        ∙ ap choose_simple simple in
      rw (got, receive_request) (ap some decoded)

module _ (seq : ℕ) (small : seq < 2 ^ 64) where
  pub receive_discover :
      receive_request (some (fill_command discover_request ++ (htobe64 seq ++ [])))
      ≡ some (request (discover seq))
  unfolding validate_simple_request command_is fill_command is_valid_string c_str str_eq
      choose_simple
  receive_discover =
      receive_simple seq discover_request [] tt (omega arith)
        (record { fits = omega arith; padded = refl; not_add = refl; accepted = refl })
      ∙ ground (arith, be64toh-htobe64 seq small)

  module _ (name : Bytes) (plain : NoNul name) (room : length name ≤ 65489) where
    pub receive_files_list :
        receive_request (some (fill_command files_list_request ++ (htobe64 seq ++ name)))
        ≡ some (request (files_list seq name))
    unfolding validate_simple_request command_is fill_command is_valid_string c_str str_eq
        choose_simple
    receive_files_list =
        receive_simple seq files_list_request name plain room
          (record { fits = omega arith; padded = refl; not_add = refl; accepted = ground arith })
        ∙ ground (arith, be64toh-htobe64 seq small, c_str-append name (8 - length name) plain)

    module _ (named : 0 < length name) where
      pub receive_fetch :
          receive_request (some (fill_command file_get_request ++ (htobe64 seq ++ name)))
          ≡ some (request (fetch seq name))
      unfolding validate_simple_request command_is fill_command is_valid_string c_str str_eq
          choose_simple
      receive_fetch =
          receive_simple seq file_get_request name plain room
            (record { fits = omega arith; padded = refl; not_add = refl; accepted = ground arith })
          ∙ ground (arith, be64toh-htobe64 seq small, c_str-append name (8 - length name) plain)

      pub receive_remove :
          receive_request (some (fill_command file_remove_request ++ (htobe64 seq ++ name)))
          ≡ some (request (remove name))
      unfolding validate_simple_request command_is fill_command is_valid_string c_str str_eq
          choose_simple
      receive_remove =
          receive_simple seq file_remove_request name plain room
            (record { fits = omega arith; padded = refl; not_add = refl; accepted = ground arith })
          ∙ ground (arith, c_str-append name (8 - length name) plain)

    pub receive_upload :
        (file_size : ℕ)
        → file_size < 2 ^ 64
        → length name ≤ 65481
        → receive_request
            (some (fill_command file_add_request ++ (htobe64 seq ++ (htobe64 file_size ++ name))))
          ≡ some (request (upload seq name file_size))
    unfolding receive_request decode_request validate_request choose_handler command_is fill_command
        is_valid_string c_str str_eq
    receive_upload file_size h k =
        rw
          (
            recvfrom_complex_lem seq file_add_request name (omega arith) plain file_size k,
            receive_request,
          )
          (ground (
            arith,
            be64toh-htobe64 seq small,
            be64toh-htobe64 file_size h,
            c_str_of_NoNul name plain,
          ))
