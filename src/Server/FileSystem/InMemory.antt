-- ===== src/Server/FileSystem/InMemory.antt =====
-- A file system in memory, which meets the assumptions.
use distributed_server_clien.Prelude.Bytes.{Bytes, str_eq, str_eq_refl}
use distributed_server_clien.Prelude.{Option, none, some, [], ◌++◌, refl, arith, if◌then◌else◌}
use distributed_server_clien.Server.FileSystem.{FileSystem, IsReliable, present, size_of}

abbrev pub Files : Type 0
Files = Bytes → Option Bytes

abbrev pub update : Files → Bytes → Option Bytes → Files
update d p c q = if str_eq p q then c else d q

abbrev pub bytes_of : Option Bytes → Bytes
bytes_of none = []
bytes_of (some bs) = bs

abbrev pub in_memory : FileSystem
in_memory = record {
  Disk = Files;
  content = λ d p. d p;
  exists = λ d p. present (d p);
  file_size = λ d p. size_of (d p);
  remove = λ d p. some (update d p none);
  open_out = λ d p. some (update d p (some []));
  write = λ d p bs. update d p (some (bytes_of (d p) ++ bs));
}

pub in_memory-IsReliable : IsReliable in_memory
in_memory-IsReliable = record {
  lawful = record {
    exists_file = λ d p bytes h. rw h refl;
    content-remove = λ d d' p q h. ground arith;
    content-open_out = λ d d' p q h. ground arith;
    content-write_other = λ d p q new h. rw h refl;
  };
  written = λ d p old new h. rw (str_eq_refl p, h) refl;
  measured = λ d p bytes h. rw h refl;
}
