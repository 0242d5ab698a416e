-- ===== src/Protocol/Layout.antt =====
-- A message that was built by a constructor, put on the wire and read back into a struct.
use distributed_server_clien.Prelude.Bytes.{Bytes}
use distributed_server_clien.Prelude.{
  ℕ, zero, suc, ◌-◌, ◌≤◌, ◌≡◌, refl, sym, ap, ◌∙◌, [], ◌∷◌, ◌++◌, append_assoc, append-nil, arith,
  length, take, drop, take_d, replicate, length-append, length-replicate, drop-append,
  drop-append_add, take_d-append, take_d-append_add,
}
use distributed_server_clien.Protocol.Message.{
  fill_command, complex_image, complex_overlay, simple_overlay, as_simple,
}

pub length-fill_command : (s : Bytes) → length s ≤ 10 → length (fill_command s) ≡ 10
unfolding fill_command
length-fill_command s h =
    length-append s (replicate (10 - length s) 0)
    ∙ omega (arith, length-replicate {0} {A = ℕ} (10 - length s) 0)

pub take_d-nil : (n : ℕ) → take_d {A = ℕ} n [] 0 ≡ replicate n 0
take_d-nil zero = refl
take_d-nil (suc n) = ap (◌∷◌ 0) (take_d-nil n)

pub fill_command-take_d : (s : Bytes) → length s ≤ 10 → fill_command s ≡ take_d 10 s 0
unfolding fill_command
fill_command-take_d s h =
    ap (◌++◌ s) (sym (take_d-nil (10 - length s)))
    ∙ sym (take_d-append_add 10 (10 - length s) s [] 0 (omega arith))
    ∙ ap (λ (t : Bytes). take_d 10 t 0) (append-nil s)

-- The fields of a struct lie where the overlays look for them.
module _ (c q : Bytes) (lc : length c ≡ 10) (lq : length q ≡ 8) where
  length-head : length (c ++ q) ≡ 18
  length-head = omega (arith, length-append {0} c q)

  drop_head : (rest : Bytes) → drop 18 (c ++ (q ++ rest)) ≡ rest
  drop_head rest =
      ap (drop 18) (sym (append_assoc c q rest)) ∙ drop-append 18 (c ++ q) rest length-head

  drop_head_param : (rest : Bytes) → drop 26 (c ++ (q ++ rest)) ≡ drop 8 rest
  drop_head_param rest =
      ap (drop 26) (sym (append_assoc c q rest))
      ∙ drop-append_add 26 8 (c ++ q) rest (omega (arith, length-head))

  seq_field : (rest : Bytes) → take_d 8 (drop 10 (c ++ (q ++ rest))) 0 ≡ q
  seq_field rest =
      ap (λ (t : Bytes). take_d 8 t 0) (drop-append 10 c (q ++ rest) lc)
      ∙ take_d-append 8 q rest 0 lq

  pub complex_overlay-head :
      (t : Bytes)
      → complex_overlay (c ++ (q ++ t)) ≡ record {
        command = c;
        message_seq = q;
        param = take_d 8 t 0;
        text = take 65482 (drop 8 t);
      }
  unfolding complex_overlay
  complex_overlay-head t = λ i. record {
    command = take_d-append 10 c (q ++ t) 0 lc i;
    message_seq = seq_field t i;
    param = take_d 8 (drop_head t i) 0;
    text = take 65482 (drop_head_param t i);
  }

  pub complex_overlay-image :
      (p t : Bytes)
      → length p ≡ 8
      → complex_overlay (c ++ (q ++ (p ++ t)))
        ≡ record { command = c; message_seq = q; param = p; text = take 65482 t }
  complex_overlay-image p t lp = complex_overlay-head (p ++ t) ∙ λ i. record {
    command = c;
    message_seq = q;
    param = take_d-append 8 p t 0 lp i;
    text = take 65482 (drop-append 8 p t lp i);
  }

  pub simple_overlay-image :
      (t : Bytes)
      → simple_overlay (c ++ (q ++ t))
        ≡ record { command = c; message_seq = q; text = take 65490 t }
  unfolding simple_overlay
  simple_overlay-image t = λ i. record {
    command = take_d-append 10 c (q ++ t) 0 lc i;
    message_seq = seq_field t i;
    text = take 65490 (drop_head t i);
  }

  -- The cast of a message that was received as a ComplexMessage: `param` and `data` of the one
  -- struct make up `data` of the other.
  pub as_simple-complex_overlay :
      (t : Bytes)
      → as_simple (complex_overlay (c ++ (q ++ t))) ≡ record {
        command = c;
        message_seq = q;
        text = take 65490 (take_d 8 t 0 ++ take 65482 (drop 8 t));
      }
  unfolding as_simple complex_image
  as_simple-complex_overlay t =
      ap as_simple (complex_overlay-head t)
      ∙ simple_overlay-image (take_d 8 t 0 ++ take 65482 (drop 8 t))
