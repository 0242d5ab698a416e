-- ===== src/Protocol/Texts/Padding.antt =====
-- What the byte tests accept: a text with NUL up to the end of the array.
use distributed_server_clien.Prelude.Bytes.{Bytes, c_str, NoNul, str_eq, str_eq_iff}
use distributed_server_clien.Prelude.{
  ℕ, zero, suc, ◌-◌, ◌≤◌, ◌≡◌, refl, ap, ◌↔◌, true, ◌&&◌, [], ◌∷◌, arith, ◌==◌, if◌then◌else◌,
  get_or, length, take_d,
}
use distributed_server_clien.Protocol.Texts.{
  only_nul, skip_text, is_valid_string, valid_data_loop, is_valid_data, expected_loop,
  is_expected_command,
}

-- The array of `n` bytes at `str` is its own C string with NUL behind.
abbrev pub IsPadded : ℕ → Bytes → Type 0
IsPadded n str = take_d n (c_str (take_d n str 0)) 0 ≡ take_d n str 0

cons_inj : {a b : ℕ} {s t : Bytes} → a ∷ s ≡ b ∷ t → (a ≡ b) × (s ≡ t)
cons_inj h = ground arith

only_nul_iff : (s : Bytes) (n : ℕ) → (only_nul s n ≡ true) ↔ (take_d n [] 0 ≡ take_d n s 0)
unfolding only_nul
only_nul_iff s zero = (λ _. refl, λ _. refl)
only_nul_iff [] (suc n) = (λ _. refl, λ _. (only_nul_iff [] n).1 refl)
only_nul_iff (b ∷ bs) (suc n) = ground (arith, only_nul_iff bs n)

valid_data_loop_iff :
    (p : ℕ) (s : Bytes) (n : ℕ)
    → (valid_data_loop p s n ≡ true)
      ↔ ((if p == 0 then take_d n [] 0 else take_d n (c_str (take_d n s 0)) 0) ≡ take_d n s 0)
unfolding valid_data_loop c_str
valid_data_loop_iff p s zero = ground arith
valid_data_loop_iff p [] (suc n) = ground (arith, valid_data_loop_iff 0 [] n)
valid_data_loop_iff p (b ∷ bs) (suc n) = ground (arith, valid_data_loop_iff b bs n)

-- `is_valid_data` holds of the first `n` bytes of an array exactly if they are a text without NUL
-- with nothing but NUL behind it.
pub is_valid_data_iff : (s : Bytes) (n : ℕ) → (is_valid_data s n ≡ true) ↔ IsPadded n s
unfolding is_valid_data c_str
is_valid_data_iff s zero = (λ _. refl, λ _. refl)
is_valid_data_iff [] (suc n) = ground (arith, valid_data_loop_iff 0 [] n)
is_valid_data_iff (b ∷ bs) (suc n) = ground (arith, valid_data_loop_iff b bs n)

skip_text_iff : (s : Bytes) (n : ℕ) → (skip_text s n ≡ true) ↔ IsPadded n s
unfolding skip_text c_str only_nul
skip_text_iff s zero = (λ _. refl, λ _. refl)
skip_text_iff [] (suc n) = ground (arith, only_nul_iff [] n)
skip_text_iff (b ∷ bs) (suc n) = ground (arith, only_nul_iff bs n, skip_text_iff bs n)

-- `is_valid_string` is `is_valid_data` together with the test that the last of the bytes is NUL.
pub is_valid_string-is_valid_data :
    (s : Bytes) (n : ℕ) → is_valid_string s n ≡ (is_valid_data s n && get_or s (n - 1) 0 == 0)
unfolding is_valid_string
is_valid_string-is_valid_data s n = ground (arith, skip_text_iff s n, is_valid_data_iff s n)

less : (n : ℕ) → suc n - 1 ≡ n
less n = omega arith

expected_loop_iff :
    (s e : Bytes) (n : ℕ)
    → length e ≤ n
    → (expected_loop s e n ≡ true) ↔ (take_d n e 0 ≡ take_d n s 0)
unfolding expected_loop
expected_loop_iff s [] n h = only_nul_iff s n
expected_loop_iff s (e ∷ es) zero h = absurd (omega arith)
expected_loop_iff [] (e ∷ es) (suc n) h = rw (less n) (ground (arith, expected_loop_iff [] es n))
expected_loop_iff (b ∷ bs) (e ∷ es) (suc n) h =
    rw (less n) (ground (arith, expected_loop_iff bs es n))

-- For an expected command of at most 10 bytes, `is_expected_command` holds exactly if the array of
-- 10 bytes is that command padded with NUL.
pub is_expected_command_iff :
    (command expected : Bytes)
    → length expected ≤ 10
    → (is_expected_command command expected ≡ true) ↔ (take_d 10 expected 0 ≡ take_d 10 command 0)
unfolding is_expected_command
is_expected_command_iff command expected h = expected_loop_iff command expected 10 h

pub c_str-take_d : (n : ℕ) (s : Bytes) → NoNul s → length s ≤ n → c_str (take_d n s 0) ≡ s
unfolding c_str
c_str-take_d zero [] h k = refl
c_str-take_d zero (b ∷ s) h k = absurd (omega arith)
c_str-take_d (suc n) [] h k = refl
c_str-take_d (suc n) (b ∷ s) h k = ground (arith, c_str-take_d n s h.1)

pub take_d-IsPadded : (n : ℕ) (s : Bytes) → NoNul s → length s ≤ n → IsPadded n s
take_d-IsPadded n s h k = rw (c_str-take_d n s h k)

-- On an array of 10 bytes that `is_valid_string` lets through, and an expected command without NUL
-- of at most 10 bytes, the client's test of the command byte by byte and the server's test of its C
-- string agree.
pub is_expected_command-str_eq :
    (command expected : Bytes)
    → NoNul expected
    → length expected ≤ 10
    → is_valid_string command 10 ≡ true
    → is_expected_command command expected ≡ str_eq (c_str (take_d 10 command 0)) expected
is_expected_command-str_eq command expected h k v = ground (
  arith,
  is_expected_command_iff command expected k,
  str_eq_iff (c_str (take_d 10 command 0)) expected,
  is_valid_string-is_valid_data command 10,
  is_valid_data_iff command 10,
  c_str-take_d 10 expected h k,
  ap c_str,
)
