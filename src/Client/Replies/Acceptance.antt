-- ===== src/Client/Replies/Acceptance.antt =====
-- The replies of the server pass the tests of the client.
use distributed_server_clien.Prelude.Bytes.{
  Bytes, NoNul, c_str, c_str_of_NoNul, c_str-append, str_eq_iff,
}
use distributed_server_clien.Prelude.{
  ℕ, ◌+◌, ◌-◌, ◌^◌, ◌%◌, ◌≤◌, ◌<◌, ◌≡◌, refl, sym, ap, ◌⊎◌, inl, inr, append-nil, true, false, some,
  [], ◌++◌, arith, length, replicate, take_d, take_d_of_length, take_d-append, length-take_d,
}
use distributed_server_clien.Words.{htobe64, be64toh, be64toh-htobe64, u16}
use distributed_server_clien.Wire.{recvfrom_complex_lem, recvfrom_simple_lem, recvfrom-as_simple}
use distributed_server_clien.Protocol.Texts.{is_valid_data, is_expected_command}
use distributed_server_clien.Protocol.Texts.Padding.{is_valid_data_iff, is_expected_command_iff}
use distributed_server_clien.Protocol.Layout.{fill_command-take_d}
use distributed_server_clien.Protocol.Message.{
  ComplexMessage, SimpleMessage, fill_command, as_simple,
}
use distributed_server_clien.Protocol.Validation.{
  valid, validate_complex, validate_simple, is_empty,
}
use distributed_server_clien.Protocol.{
  discover_response, files_list_response, file_get_response, file_add_acceptance, file_add_refusal,
}
use distributed_server_clien.Client.Replies.{
  fetch_reply, discover_reply, search_reply, judge_upload, upload_reply,
}

-- A text with NUL behind is valid data, up to its own length.
is_valid_data-append :
    (s : Bytes) (k : ℕ) → NoNul s → is_valid_data (s ++ replicate k 0) (length s) ≡ true
is_valid_data-append s k h = (is_valid_data_iff (s ++ replicate k 0) (length s)).1 (
    rw (take_d-append (length s) s (replicate k 0) 0 refl, c_str_of_NoNul s h)
      (take_d_of_length (length s) s 0 refl))

is_valid_data_of_NoNul : (s : Bytes) → NoNul s → is_valid_data s (length s) ≡ true
is_valid_data_of_NoNul s h = rw append-nil at (is_valid_data-append s 0 h)

is_expected_command-fill_command :
    (command : Bytes)
    → length command ≤ 10
    → is_expected_command (fill_command command) command ≡ true
is_expected_command-fill_command command h =
    (is_expected_command_iff (fill_command command) command h).1 (
      rw (fill_command-take_d command h)
        (sym (take_d_of_length 10 (take_d 10 command 0) 0 (length-take_d 10 command 0))))

-- What a reply needs so that the client takes it.
validate_complex_lem :
    (m : ComplexMessage) (n seq : ℕ) (command expected : Bytes)
    → 26 ≤ n
    → is_expected_command m.command command ≡ true
    → be64toh m.message_seq ≡ seq
    → is_valid_data m.text (n - 26) ≡ true
    → (is_empty expected ≡ true) ⊎ (expected ≡ c_str m.text)
    → validate_complex m seq command n expected ≡ valid
unfolding validate_complex
validate_complex_lem m n seq command expected h c q d e =
    ground (arith, str_eq_iff expected (c_str m.text))

validate_simple_lem :
    (m : SimpleMessage) (n seq : ℕ) (command expected : Bytes)
    → 18 ≤ n
    → is_expected_command m.command command ≡ true
    → be64toh m.message_seq ≡ seq
    → is_valid_data m.text (n - 18) ≡ true
    → (is_empty expected ≡ true) ⊎ (expected ≡ c_str m.text)
    → validate_simple m seq command n expected ≡ valid
unfolding validate_simple
validate_simple_lem m n seq command expected h c q d e =
    ground (arith, str_eq_iff expected (c_str m.text))

is_expected_command_refusal :
    is_expected_command (fill_command file_add_refusal) file_add_acceptance ≡ false
unfolding is_expected_command fill_command
is_expected_command_refusal = refl

judge_upload_refusal :
    (m : ComplexMessage) (n seq : ℕ) (name : Bytes)
    → is_expected_command m.command file_add_acceptance ≡ false
    → validate_simple (as_simple m) seq file_add_refusal n name ≡ valid
    → judge_upload m n seq name ≡ some (u16 (be64toh m.param), false)
unfolding judge_upload
judge_upload_refusal m n seq name c ok = rw (c, ok)

module _ (seq : ℕ) (small : seq < 2 ^ 64) (name : Bytes) (plain : NoNul name) where
  -- A ComplexMessage with a text, held against that text or against none.
  valid_complex :
      (command expected : Bytes) (param : ℕ)
      → length command ≤ 10
      → (is_empty expected ≡ true) ⊎ (expected ≡ name)
      → validate_complex
          (record {
            command = fill_command command;
            message_seq = htobe64 seq;
            param = htobe64 param;
            text = name;
          })
          seq
          command
          (26 + length name)
          expected
        ≡ valid
  valid_complex command expected param fits e =
      let size : 26 + length name - 26 ≡ length name = omega arith in
      validate_complex_lem _ (26 + length name) seq command expected (omega arith)
        (is_expected_command-fill_command command fits) (be64toh-htobe64 seq small)
        (rw size (is_valid_data_of_NoNul name plain)) (rw (c_str_of_NoNul name plain) e)

  module _ (param : ℕ) (port : 0 < param) (port_small : param < 2 ^ 16) where
    -- The client reads from the reply to a fetch the port that the server put there.
    pub fetch_reply-valid :
        length name ≤ 65481
        → fetch_reply seq name
            (some (fill_command file_get_response ++ (htobe64 seq ++ (htobe64 param ++ name))))
          ≡ some param
    unfolding fetch_reply
    fetch_reply-valid room =
        rw
          (
            recvfrom_complex_lem seq file_get_response name (omega arith) plain param room,
            fetch_reply,
            valid_complex file_get_response name param (omega arith) (inr refl),
            be64toh-htobe64 param (omega arith),
          )
          (ap some (omega arith))

  -- A discovery reply shows the text and the space of the server.
  pub discover_reply-valid :
      (space : ℕ)
      → space < 2 ^ 64
      → length name ≤ 65481
      → discover_reply seq
          (some (fill_command discover_response ++ (htobe64 seq ++ (htobe64 space ++ name))))
        ≡ some (name, space)
  unfolding discover_reply is_empty
  discover_reply-valid space h room = rw (
    recvfrom_complex_lem seq discover_response name (omega arith) plain space room,
    discover_reply,
    valid_complex discover_response [] space (omega arith) (inl refl),
    be64toh-htobe64 space h,
    c_str_of_NoNul name plain,
  )

  -- The text of a reply to a search comes through.
  pub search_reply-valid :
      length name ≤ 65489
      → search_reply seq (some (fill_command files_list_response ++ (htobe64 seq ++ name)))
        ≡ some name
  unfolding search_reply is_empty
  search_reply-valid room =
      let size : 18 + length name - 18 ≡ length name = omega arith in
      let ok =
        validate_simple_lem
          (record {
            command = fill_command files_list_response;
            message_seq = htobe64 seq;
            text = name;
          })
          (18 + length name) seq files_list_response [] (omega arith)
          (is_expected_command-fill_command files_list_response (omega arith))
          (be64toh-htobe64 seq small) (rw size (is_valid_data_of_NoNul name plain)) (inl refl) in
      rw (
        recvfrom_simple_lem seq files_list_response name (omega arith) plain room,
        search_reply,
        ok,
        c_str_of_NoNul name plain,
      )

  -- A refusal is taken for one.
  pub upload_reply_refusal :
      length name ≤ 65489
      → (port : ℕ) × (upload_reply seq name
            (some (fill_command file_add_refusal ++ (htobe64 seq ++ name)))
          ≡ some (port, false))
  unfolding upload_reply
  upload_reply_refusal room =
      let (m, got, c, simple) =
        recvfrom-as_simple seq file_add_refusal name (omega arith) plain room in
      let size : 18 + length name - 18 ≡ length name = omega arith in
      let ok =
        validate_simple_lem (as_simple m) (18 + length name) seq file_add_refusal name (omega arith)
          (rw simple (is_expected_command-fill_command file_add_refusal (omega arith)))
          (rw simple (be64toh-htobe64 seq small))
          (rw (simple, size) (is_valid_data-append name (8 - length name) plain))
          (inr (rw simple (sym (c_str-append name (8 - length name) plain)))) in
      (
        u16 (be64toh m.param),
        rw (got, upload_reply)
            (judge_upload_refusal m (18 + length name) seq name (rw c is_expected_command_refusal)
              ok),
      )

-- The client reads from an acceptance, the header of a ComplexMessage with the number of its
-- request and no data, for a number of 64 bits, a port of 16 bits and any name, the port and that
-- the upload is approved.
pub upload_reply_acceptance :
    (seq port : ℕ) (name : Bytes)
    → seq < 2 ^ 64
    → port < 2 ^ 16
    → upload_reply seq name
        (some (fill_command file_add_acceptance ++ (htobe64 seq ++ (htobe64 port ++ []))))
      ≡ some (port, true)
unfolding upload_reply judge_upload is_empty
upload_reply_acceptance seq port name small h =
    rw
      (
        recvfrom_complex_lem seq file_add_acceptance [] (omega arith) tt port (omega arith),
        upload_reply,
        is_expected_command-fill_command file_add_acceptance (omega arith),
        valid_complex seq small [] tt file_add_acceptance [] port (omega arith) (inl refl),
        be64toh-htobe64 port (omega arith),
      )
      (let e : port % 2 ^ 16 ≡ port = omega arith in rw e)
