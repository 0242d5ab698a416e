-- ===== src/Server/Consistency/Books.antt =====
-- The operations of a storage, next to a change of one file.
use distributed_server_clien.Prelude.Bytes.{Bytes, str_eq_refl}
use distributed_server_clien.Prelude.{
  ℕ, ◌+◌, ◌≤◌, ◌≡◌, ◌≢◌, ◌∙◌, sym, ap, false, true, some, arith, length,
}
use distributed_server_clien.Server.FileSystem.{present}
use distributed_server_clien.Server.FileSet.{has, erase}
use distributed_server_clien.Server.FileSet.Order.{insert-IsSorted, erase-IsSorted, has-erase}
use distributed_server_clien.Server.Storage.{Storage, remove_file_from_storage, free_space}
use distributed_server_clien.Server.Upload.Atomic.{with_file}
use distributed_server_clien.Server.Consistency.{Contents, byte_count, total, Agree}
use distributed_server_clien.Server.Consistency.Sizes.{
  total_of_not-has, AllPresent-of_not-has, total-insert, AllPresent-insert, total-erase,
  AllPresent-erase,
}

module _ (limit : ℕ) (s : Storage) (c c' : Contents) (f : Bytes)
    (same : (g : Bytes) → f ≢ g → c' g ≡ c g) (ok : Agree limit s c) where
  -- A change of a file that is not in storage.
  pub Agree-of_not-has : has f s.files_in_storage ≡ false → Agree limit s c'
  Agree-of_not-has new = record {
    sorted = ok.sorted;
    files = AllPresent-of_not-has c c' f same s.files_in_storage new ok.files;
    counted = ok.counted ∙ sym (total_of_not-has c c' f same s.files_in_storage new);
    bounded = ok.bounded;
    room = ok.room;
    word = ok.word;
  }

  pub with_file-Agree :
      (bytes : Bytes)
      → has f s.files_in_storage ≡ false
      → s.used_space + length bytes ≤ limit
      → c' f ≡ some bytes
      → Agree limit (with_file s f (length bytes)) c'
  with_file-Agree bytes new fits stored =
      let kept = total_of_not-has c c' f same s.files_in_storage new in
      let more = total-insert c' f s.files_in_storage new in
      record {
        sorted = insert-IsSorted f s.files_in_storage ok.sorted;
        files =
            AllPresent-insert c' f s.files_in_storage (ap present stored)
              (AllPresent-of_not-has c c' f same s.files_in_storage new ok.files);
        counted = omega (arith, more, ap byte_count stored, kept, ok.counted);
        bounded = fits;
        room = ok.room;
        word = ok.word;
      }

  pub free_space-Agree :
      (bytes : Bytes)
      → has f s.files_in_storage ≡ true
      → c f ≡ some bytes
      → Agree limit (free_space (remove_file_from_storage s f).0 (length bytes)) c'
  unfolding free_space remove_file_from_storage
  free_space-Agree bytes old stored =
      let gone : has f (erase f s.files_in_storage) ≡ false =
        ground (arith, has-erase f f s.files_in_storage ok.sorted, str_eq_refl f) in
      let kept = total_of_not-has c c' f same (erase f s.files_in_storage) gone in
      let less : length bytes + total c (erase f s.files_in_storage) ≡ total c s.files_in_storage =
        rw stored at (total-erase c f s.files_in_storage old) in
      record {
        sorted = erase-IsSorted f s.files_in_storage ok.sorted;
        files =
            AllPresent-of_not-has c c' f same (erase f s.files_in_storage) gone
              (AllPresent-erase c f s.files_in_storage ok.files);
        counted = omega (arith, kept, less, ok.counted, ok.bounded, ok.word);
        bounded = omega (arith, kept, less, ok.counted, ok.bounded, ok.word);
        room = ok.room;
        word = ok.word;
      }
