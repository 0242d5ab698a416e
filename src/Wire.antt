-- ===== src/Wire.antt =====
-- A message from the constructor of one node to the struct of another: protocol/ and socket/
-- together.
use distributed_server_clien.Prelude.Bytes.{Bytes, NoNul, c_str_of_NoNul}
use distributed_server_clien.Prelude.{
  ℕ, zero, suc, ◌+◌, ◌-◌, ◌≤◌, ◌≡◌, refl, sym, ap, ◌∙◌, some, [], ◌∷◌, ◌++◌, append_assoc,
  append-nil, arith, length, take, drop, take_d, replicate, length-append, length-replicate,
  length-drop, take_of_length-le, take_d-append, take_d_of_length,
}
use distributed_server_clien.Words.{u16, htobe64, length-htobe64}
use distributed_server_clien.Protocol.Message.{
  ComplexMessage, fill_command, complex_message, simple_message, as_simple, complex_image,
  simple_image, strncpy, complex_overlay,
}
use distributed_server_clien.Protocol.Layout.{
  take_d-nil, length-fill_command, complex_overlay-head, complex_overlay-image,
  as_simple-complex_overlay, simple_overlay-image,
}
use distributed_server_clien.Socket.Udp.{
  send_to, send_simple, send_complex, recvfrom_complex, recvfrom_simple,
}

take_d-drop : (n : ℕ) (xs : Bytes) → take_d n xs 0 ++ drop n xs ≡ xs ++ replicate (n - length xs) 0
unfolding drop
take_d-drop zero [] = refl
take_d-drop zero (x ∷ xs) =
    let none_left : 0 - suc (length xs) ≡ 0 = omega arith in
    rw none_left (sym (append-nil (x ∷ xs)))
take_d-drop (suc n) [] =
    let all_left : suc n - 0 ≡ suc n = omega arith in
    rw all_left (ap (◌∷◌ 0) (append-nil (take_d n [] 0) ∙ take_d-nil n))
take_d-drop (suc n) (x ∷ xs) =
    let same : suc n - suc (length xs) ≡ n - length xs = omega arith in
    rw same (ground (arith, take_d-drop n xs))

pub strncpy_lem : (n : ℕ) (s : Bytes) → NoNul s → length s ≤ n → strncpy s n ≡ s
unfolding strncpy
strncpy_lem n s h k = ap (take n) (c_str_of_NoNul s h) ∙ take_of_length-le n s k

send_to-all :
    (image : Bytes) (n k : ℕ) → k ≡ n → length image ≡ n → send_to (some n) image k ≡ some image
unfolding send_to
send_to-all image n k e l = ground (arith, take_d_of_length n image 0 l)

module _ (seq : ℕ) (command name : Bytes) (fits : length command ≤ 10) (plain : NoNul name) where
  length-simple : length (fill_command command ++ (htobe64 seq ++ name)) ≡ 18 + length name
  length-simple = omega (
    arith,
    length-append {0} (fill_command command) (htobe64 seq ++ name),
    length-append {0} (htobe64 seq) name,
    length-fill_command command fits,
    length-htobe64 seq,
  )

  length-complex :
      (param : ℕ)
      → length (fill_command command ++ (htobe64 seq ++ (htobe64 param ++ name))) ≡ 26 + length name
  length-complex param = omega (
    arith,
    length-append {0} (fill_command command) (htobe64 seq ++ (htobe64 param ++ name)),
    length-append {0} (htobe64 seq) (htobe64 param ++ name),
    length-append {0} (htobe64 param) name,
    length-fill_command command fits,
    length-htobe64 seq,
    length-htobe64 param,
  )

  -- The datagram of a SimpleMessage: its fields and the text, with no padding.
  pub send_simple_lem :
      length name ≤ 65489
      → send_simple
          (some (18 + length name))
          (simple_message (htobe64 seq) command name)
          (length name)
        ≡ some (fill_command command ++ (htobe64 seq ++ name))
  unfolding send_simple simple_message simple_image
  send_simple_lem h =
      ap
        (λ (t : Bytes).
          send_to (some (18 + length name)) (fill_command command ++ (htobe64 seq ++ t))
            (u16 (18 + u16 (length name))))
        text_field
      ∙ send_to-all (fill_command command ++ (htobe64 seq ++ name)) (18 + length name)
          (u16 (18 + u16 (length name))) (omega arith) length-simple
    where
      text_field : strncpy name 65489 ≡ name
      text_field = strncpy_lem 65489 name plain h

  pub send_complex_lem :
      (param : ℕ)
      → length name ≤ 65481
      → send_complex
          (some (26 + length name))
          (complex_message (htobe64 seq) command name (htobe64 param))
          (length name)
        ≡ some (fill_command command ++ (htobe64 seq ++ (htobe64 param ++ name)))
  unfolding send_complex complex_message complex_image
  send_complex_lem param h =
      ap
        (λ (t : Bytes).
          send_to (some (26 + length name))
            (fill_command command ++ (htobe64 seq ++ (htobe64 param ++ t)))
            (u16 (26 + u16 (length name))))
        (strncpy_lem 65481 name plain h)
      ∙ send_to-all (fill_command command ++ (htobe64 seq ++ (htobe64 param ++ name)))
          (26 + length name) (u16 (26 + u16 (length name))) (omega arith) (length-complex param)

  -- A ComplexMessage that is sent with `data_length` 0 goes without its text.
  pub send_complex_header :
      (source : Bytes) (param : ℕ)
      → send_complex (some 26) (complex_message (htobe64 seq) command source (htobe64 param)) 0
        ≡ some (fill_command command ++ (htobe64 seq ++ (htobe64 param ++ [])))
  unfolding send_complex complex_message complex_image send_to
  send_complex_header source param =
      let header = fill_command command ++ (htobe64 seq ++ (htobe64 param ++ [])) in
      let text = strncpy source 65481 in
      let split : ◌≡◌ {A = Bytes} (fill_command command ++ (htobe64 seq ++ (htobe64 param ++ text)))
          (header ++ text) =
        simp (append_assoc, append-nil) in
      let size : length header ≡ 26 = omega (
        arith,
        length-append {0} (fill_command command) (htobe64 seq ++ (htobe64 param ++ [])),
        length-append {0} (htobe64 seq) (htobe64 param ++ []),
        length-append {0} (htobe64 param) [],
        length-fill_command command fits,
        length-htobe64 seq,
        length-htobe64 param,
      ) in
      ap some (ap (λ (t : Bytes). take_d 26 t 0) split ∙ take_d-append 26 header text 0 size)

  -- A SimpleMessage read back as one.
  pub recvfrom_simple_lem :
      length name ≤ 65489
      → recvfrom_simple (some (fill_command command ++ (htobe64 seq ++ name)))
        ≡ some (
          record { command = fill_command command; message_seq = htobe64 seq; text = name },
          18 + length name,
        )
  unfolding recvfrom_simple
  recvfrom_simple_lem h =
      let whole =
        take_of_length-le 65508 (fill_command command ++ (htobe64 seq ++ name))
          (omega (arith, length-simple)) in
      let fields =
        simple_overlay-image (fill_command command) (htobe64 seq) (length-fill_command command fits)
          (length-htobe64 seq) name in
      rw (whole, fields, take_of_length-le 65490 name (omega arith), length-simple)

  -- A ComplexMessage read back as one.
  pub recvfrom_complex_lem :
      (param : ℕ)
      → length name ≤ 65481
      → recvfrom_complex (some (fill_command command ++ (htobe64 seq ++ (htobe64 param ++ name))))
        ≡ some (
          record {
            command = fill_command command;
            message_seq = htobe64 seq;
            param = htobe64 param;
            text = name;
          },
          26 + length name,
        )
  unfolding recvfrom_complex
  recvfrom_complex_lem param h =
      let whole =
        take_of_length-le 65508 (fill_command command ++ (htobe64 seq ++ (htobe64 param ++ name)))
          (omega (arith, length-complex param)) in
      let fields =
        complex_overlay-image (fill_command command) (htobe64 seq)
          (length-fill_command command fits) (length-htobe64 seq) (htobe64 param) name
          (length-htobe64 param) in
      rw (whole, fields, take_of_length-le 65482 name (omega arith), length-complex param)

  -- A SimpleMessage that the server reads into a ComplexMessage and casts.
  pub recvfrom-as_simple :
      length name ≤ 65489
      → (m : ComplexMessage) × (recvfrom_complex
            (some (fill_command command ++ (htobe64 seq ++ name)))
          ≡ some (m, 18 + length name))
        × (m.command ≡ fill_command command)
        × (as_simple m ≡ record {
          command = fill_command command;
          message_seq = htobe64 seq;
          text = name ++ replicate (8 - length name) 0;
        })
  unfolding recvfrom_complex
  recvfrom-as_simple h =
      let packet = fill_command command ++ (htobe64 seq ++ name) in
      let whole = take_of_length-le 65508 packet (omega (arith, length-simple)) in
      (
        complex_overlay packet,
        rw (whole, length-simple),
        ap (λ (m : ComplexMessage). m.command)
            (complex_overlay-head (fill_command command) (htobe64 seq)
              (length-fill_command command fits) (length-htobe64 seq) name),
        as_simple-complex_overlay (fill_command command) (htobe64 seq)
              (length-fill_command command fits) (length-htobe64 seq) name
            ∙ λ i. record {
              command = fill_command command;
              message_seq = htobe64 seq;
              text = tail i;
            },
      )
    where
      tail :
          take 65490 (take_d 8 name 0 ++ take 65482 (drop 8 name))
          ≡ name ++ replicate (8 - length name) 0
      tail =
          rw
            (
              take_of_length-le 65482 (drop 8 name) (omega (arith, length-drop 8 name)),
              take_d-drop 8 name,
            )
            (take_of_length-le 65490 (name ++ replicate (8 - length name) 0) (
              omega (
                arith,
                length-append {0} name (replicate (8 - length name) 0),
                length-replicate {0} {A = ℕ} (8 - length name) 0,
              )))
