-- ===== src/Server/Remove/Interleaving.antt =====
-- A removal that runs while the upload of the same file is under way.
use distributed_server_clien.Prelude.Bytes.{Bytes}
use distributed_server_clien.Prelude.{ℕ, ◌+◌, ◌-◌, ◌^◌, ◌≤◌, ◌<◌, ◌≡◌, arith}
use distributed_server_clien.Server.Storage.{
  Storage, remove_file_from_storage, get_available_space, free_space,
}
use distributed_server_clien.Server.Upload.Atomic.{with_file}
use distributed_server_clien.Server.Upload.{give_up}

-- The storage steps of a removal that finds `partial` bytes of a file on the disk.
abbrev pub removed_partial : Storage → Bytes → ℕ → Storage
removed_partial s filename partial = free_space (remove_file_from_storage s filename).0 partial

-- If a removal that finds `partial` bytes on the disk runs while an upload of the same file is
-- under way, and the upload is then given up, the counter wraps around to `2 ^ 64` less what is
-- missing, and no space is available any more. The conditions are that less than `partial` bytes
-- were used before the upload, that `partial` is at most the announced size, that this size fitted,
-- and that `max_available_space` is below the counter that results.
pub give_up-removed_partial :
    (s : Storage) (f : Bytes) (size partial : ℕ)
    → s.used_space < partial
    → partial ≤ size
    → s.used_space + size ≤ s.max_available_space
    → s.max_available_space + partial < 2 ^ 64 + s.used_space
    → ((give_up (removed_partial (with_file s f size) f partial) f size).used_space
        ≡ 2 ^ 64 + s.used_space - partial)
      × (get_available_space (give_up (removed_partial (with_file s f size) f partial) f size) ≡ 0)
unfolding give_up remove_file_from_storage free_space get_available_space
give_up-removed_partial s f size partial h k fits word = ground arith
