-- ===== src/Server/Storage/Space.antt =====
-- The space counter.
use distributed_server_clien.Prelude.{ℕ, ◌+◌, ◌^◌, ◌≤◌, ◌<◌, ◌≡◌, ◌↔◌, true, arith, if◌then◌else◌}
use distributed_server_clien.Server.Storage.{
  Storage, get_available_space, check_and_reserve_space, free_space,
}

-- For a counter that does not exceed a `max_available_space` of 64 bits, a reservation is granted
-- exactly if its size is at most the space that `get_available_space` reports, and then the space
-- is less by the size, and otherwise the same.
pub check_and_reserve_space-get_available_space :
    (s : Storage) (size : ℕ)
    → s.used_space ≤ s.max_available_space
    → s.max_available_space < 2 ^ 64
    → (((check_and_reserve_space s size).1 ≡ true) ↔ (size ≤ get_available_space s))
      × (get_available_space (check_and_reserve_space s size).0
            + (if (check_and_reserve_space s size).1 then size else 0)
          ≡ get_available_space s)
unfolding check_and_reserve_space get_available_space
check_and_reserve_space-get_available_space s size h k = ground arith

-- Giving back a reservation that was granted, under a `max_available_space` of 64 bits, restores
-- the storage.
pub free_space-check_and_reserve_space :
    (s : Storage) (size : ℕ)
    → s.max_available_space < 2 ^ 64
    → (check_and_reserve_space s size).1 ≡ true
    → free_space (check_and_reserve_space s size).0 size ≡ s
unfolding check_and_reserve_space free_space
free_space-check_and_reserve_space s size k h = ground arith
