-- ===== src/Server/Storage/Start.antt =====
-- The storage that the server starts with.
use distributed_server_clien.Prelude.Bytes.{Bytes}
use distributed_server_clien.Prelude.{
  ℕ, ◌+◌, ◌%◌, ◌^◌, ◌<◌, ◌≡◌, refl, true, ◌||◌, List, [], ◌∷◌, arith, if◌then◌else◌, Bool-cases,
  inl, inr,
}
use distributed_server_clien.Server.FileSet.{has, insert, has-insert}
use distributed_server_clien.Server.FileSet.Order.{IsSorted, insert-IsSorted}
use distributed_server_clien.Server.Storage.{
  Storage, Entry, add_entries, started, generate_files_in_storage,
}

-- The names of the regular files, and their sizes together.
abbrev pub regular_names : List Entry → List Bytes
regular_names [] = []
regular_names (e ∷ es) = if e.is_regular_file then e.name ∷ regular_names es else regular_names es

abbrev pub regular_size : List Entry → ℕ
regular_size [] = 0
regular_size (e ∷ es) = if e.is_regular_file then e.file_size + regular_size es else regular_size es

has-add_entries :
    (s : Storage) (es : List Entry) (f : Bytes)
    → has f (add_entries s es).files_in_storage
      ≡ (has f s.files_in_storage || has f (regular_names es))
unfolding add_entries has
has-add_entries s [] f = ground arith
has-add_entries s (e ∷ es) f = elim (Bool-cases e.is_regular_file) [
  | inl file ↦ rw file (
      ground (
        arith,
        has-add_entries
            (record s {
              files_in_storage = insert e.name s.files_in_storage;
              used_space = (s.used_space + e.file_size) % 2 ^ 64;
            })
            es f,
        has-insert f e.name s.files_in_storage,
      ))
  | inr other ↦ rw other (has-add_entries s es f)
]

used_space-add_entries :
    (s : Storage) (es : List Entry)
    → s.used_space < 2 ^ 64
    → (add_entries s es).used_space ≡ (s.used_space + regular_size es) % 2 ^ 64
unfolding add_entries
used_space-add_entries s [] h = omega arith
used_space-add_entries s (e ∷ es) h = elim (Bool-cases e.is_regular_file) [
  | inl file ↦ rw file (
      omega (
        arith,
        used_space-add_entries
            (record s {
              files_in_storage = insert e.name s.files_in_storage;
              used_space = (s.used_space + e.file_size) % 2 ^ 64;
            })
            es (omega arith),
      ))
  | inr other ↦ rw other (used_space-add_entries s es h)
]

add_entries-IsSorted :
    (s : Storage) (es : List Entry)
    → IsSorted s.files_in_storage
    → IsSorted (add_entries s es).files_in_storage
unfolding add_entries
add_entries-IsSorted s [] h = h
add_entries-IsSorted s (e ∷ es) h = elim (Bool-cases e.is_regular_file) [
  | inl file ↦ rw file (
      add_entries-IsSorted
        (record s {
          files_in_storage = insert e.name s.files_in_storage;
          used_space = (s.used_space + e.file_size) % 2 ^ 64;
        })
        es (insert-IsSorted e.name s.files_in_storage h))
  | inr other ↦ rw other (add_entries-IsSorted s es h)
]

-- If the shared folder is a directory, the server starts with a sorted set of names, in which a
-- name is exactly if it was there before or is that of a regular file of the folder, and with a
-- counter to which the sizes of the regular files are added, modulo `2 ^ 64`. The conditions are a
-- sorted set and a counter of 64 bits to start from.
pub generate_files_in_storage_started :
    (s : Storage) (es : List Entry) (f : Bytes)
    → s.used_space < 2 ^ 64
    → IsSorted s.files_in_storage
    → (s' : Storage) × (generate_files_in_storage true true es s ≡ started s')
      × IsSorted s'.files_in_storage
      × (has f s'.files_in_storage ≡ (has f s.files_in_storage || has f (regular_names es)))
      × (s'.used_space ≡ (s.used_space + regular_size es) % 2 ^ 64)
unfolding generate_files_in_storage
generate_files_in_storage_started s es f h sorted = (
  add_entries s es,
  refl,
  add_entries-IsSorted s es sorted,
  has-add_entries s es f,
  used_space-add_entries s es h,
)
