-- ===== src/Server/Consistency/Start.antt =====
-- The books agree with the disk from the start.
use distributed_server_clien.Prelude.Bytes.{Bytes, str_eq_iff}
use distributed_server_clien.Prelude.{
  ℕ, ◌+◌, ◌%◌, ◌^◌, ◌≤◌, ◌<◌, ◌≡◌, ◌⊎◌, refl, true, false, List, [], ◌∷◌, some, arith, Bool-cases,
  inl, inr, length,
}
use distributed_server_clien.Server.FileSet.{has, insert, has-insert}
use distributed_server_clien.Server.Storage.{
  Storage, Entry, add_entries, started, generate_files_in_storage,
}
use distributed_server_clien.Server.Storage.Start.{regular_size}
use distributed_server_clien.Server.Upload.Atomic.{with_file}
use distributed_server_clien.Server.Consistency.{Contents, Agree}
use distributed_server_clien.Server.Consistency.Books.{with_file-Agree}

abbrev pub entry_names : List Entry → List Bytes
entry_names [] = []
entry_names (e ∷ es) = e.name ∷ entry_names es

-- The entries are those of a folder that holds the files `c`: a directory lists each name once, and
-- `file_size` is the number of the bytes of a regular file.
abbrev pub Lists : Contents → List Entry → Type 0
Lists c [] = Unit {0}
Lists c (e ∷ es) =
    (has e.name (entry_names es) ≡ false)
    × ((e.is_regular_file ≡ false)
        ⊎ ((bytes : Bytes) × (c e.name ≡ some bytes) × (length bytes ≡ e.file_size)))
    × Lists c es

-- None of the entries is in storage yet.
abbrev Fresh : List Bytes → List Entry → Type 0
Fresh names [] = Unit {0}
Fresh names (e ∷ es) = (has e.name names ≡ false) × Fresh names es

Fresh-nil : (es : List Entry) → Fresh [] es
unfolding has
Fresh-nil [] = tt
Fresh-nil (e ∷ es) = (refl, Fresh-nil es)

Fresh-insert :
    (f : Bytes) (names : List Bytes) (es : List Entry)
    → has f (entry_names es) ≡ false
    → Fresh names es
    → Fresh (insert f names) es
unfolding has
Fresh-insert f names [] new h = tt
Fresh-insert f names (e ∷ es) new (h, hs) = (
  ground (arith, has-insert e.name f names, str_eq_iff e.name f, str_eq_iff f e.name),
  Fresh-insert f names es (ground arith) hs,
)

add_entries-Agree :
    (limit : ℕ) (c : Contents) (s : Storage) (es : List Entry)
    → Agree limit s c
    → s.used_space + regular_size es ≤ limit
    → Lists c es
    → Fresh s.files_in_storage es
    → Agree limit (add_entries s es) c
unfolding add_entries
add_entries-Agree limit c s [] ok fits lists fresh = ok
add_entries-Agree limit c s (e ∷ es) ok fits (once, inl other, lists) (new, fresh) =
    rw other (add_entries-Agree limit c s es ok (rw other at fits) lists fresh)
add_entries-Agree limit c s (e ∷ es) ok fits (once, inr (bytes, there, sized), lists) (new, fresh) =
    elim (Bool-cases e.is_regular_file) [
      | inr other ↦ rw other (add_entries-Agree limit c s es ok (rw other at fits) lists fresh)
      | inl file ↦
          let size = rw file at fits in
          let word : (s.used_space + e.file_size) % 2 ^ 64 ≡ s.used_space + length bytes =
            omega (arith, sized, size, ok.word) in
          let ok' =
            with_file-Agree limit s c c e.name (λ g ne. refl) ok bytes new
              (omega (arith, sized, size)) there in
          rw (file, word)
            (add_entries-Agree limit c (with_file s e.name (length bytes)) es ok'
              (omega (arith, sized, size)) lists
              (Fresh-insert e.name s.files_in_storage es once fresh))
    ]

-- The server starts with books that agree with the shared folder.
pub generate_files_in_storage-Agree :
    (limit : ℕ) (c : Contents) (s : Storage) (es : List Entry)
    → s.files_in_storage ≡ []
    → s.used_space ≡ 0
    → s.max_available_space ≤ limit
    → regular_size es ≤ limit
    → limit < 2 ^ 64
    → Lists c es
    → (s' : Storage) × (generate_files_in_storage true true es s ≡ started s') × Agree limit s' c
unfolding generate_files_in_storage
generate_files_in_storage-Agree limit c s es empty unused room fits word lists =
    let ok : Agree limit s c = record {
      sorted = rw empty tt;
      files = rw empty tt;
      counted = rw empty unused;
      bounded = omega (arith, unused);
      room = room;
      word = word;
    } in
    (
      add_entries s es,
      refl,
      add_entries-Agree limit c s es ok (omega (arith, unused, fits)) lists
          (rw empty (Fresh-nil es)),
    )
