-- ===== src/Protocol/Texts.antt =====
-- The byte tests of the protocol: `is_valid_string` (utilities/helper.cpp), `is_valid_data` and
-- `is_expected_command` (protocol/communication_protocol.cpp). An array is the list of its bytes;
-- behind the list it holds NUL.
pub mod Padding
use distributed_server_clien.Prelude.Bytes.{Bytes}
use distributed_server_clien.Prelude.{
  ℕ, zero, suc, ◌-◌, Bool, true, false, not, ◌&&◌, [], ◌∷◌, ◌==◌, if◌then◌else◌, get_or,
}

-- The second loop of `is_valid_string`, with the bytes that are left of `length`.
only_nul : Bytes → ℕ → Bool
only_nul str zero = true
only_nul [] (suc n) = only_nul [] n
only_nul (b ∷ bs) (suc n) = if not (b == 0) then false else only_nul bs n

-- The first loop, which goes on with the second one.
skip_text : Bytes → ℕ → Bool
unfolding only_nul
skip_text str zero = true
skip_text [] (suc n) = only_nul [] (suc n)
skip_text (b ∷ bs) (suc n) = if b == 0 then only_nul (b ∷ bs) (suc n) else skip_text bs n

unfoldable pub is_valid_string : Bytes → ℕ → Bool
unfolding skip_text
is_valid_string str length = skip_text str length && get_or str (length - 1) 0 == 0

-- The loop of `is_valid_data`, given `data[i - 1]`, the bytes from `data[i]` on, and `length - i`.
valid_data_loop : ℕ → Bytes → ℕ → Bool
valid_data_loop previous rest zero = true
valid_data_loop previous [] (suc n) = valid_data_loop 0 [] n
valid_data_loop previous (b ∷ bs) (suc n) =
    if not (b == 0) && previous == 0 then false else valid_data_loop b bs n

unfoldable pub is_valid_data : Bytes → ℕ → Bool
unfolding valid_data_loop
is_valid_data bytes zero = true
is_valid_data [] (suc n) = valid_data_loop 0 [] n
is_valid_data (b ∷ bs) (suc n) = valid_data_loop b bs n

-- The loops of `is_expected_command` over `max_command_length` bytes.
expected_loop : Bytes → Bytes → ℕ → Bool
unfolding only_nul
expected_loop command [] n = only_nul command n
expected_loop [] (e ∷ es) n = if not (0 == e) then false else expected_loop [] es (n - 1)
expected_loop (b ∷ bs) (e ∷ es) n = if not (b == e) then false else expected_loop bs es (n - 1)

unfoldable pub is_expected_command : Bytes → Bytes → Bool
unfolding expected_loop
is_expected_command command expected = expected_loop command expected 10
