-- ===== src/Server/Threads/Removal.antt =====
-- A removal while uploads of other files are under way.
use distributed_server_clien.Prelude.Bytes.{Bytes, str_eq_iff, str_eq_ne}
use distributed_server_clien.Prelude.{
  ℕ, ◌+◌, ◌≡◌, ◌≢◌, ◌∙◌, refl, ap, true, false, List, [], ◌∷◌, ◌++◌, some, length, arith,
  Bool-cases, Option-cases, inl, inr,
}
use distributed_server_clien.Server.FileSystem.{FileSystem, IsReliable}
use distributed_server_clien.Server.FileSet.{has, erase}
use distributed_server_clien.Server.Storage.{Storage, remove_file_from_storage, free_space}
use distributed_server_clien.Server.Upload.{Node}
use distributed_server_clien.Server.Remove.{remove_from_disk, handle_remove_request}
use distributed_server_clien.Server.Remove.Restore.{
  handle_remove_request_unknown, handle_remove_request_known,
}
use distributed_server_clien.Server.Consistency.{Contents, byte_count, total, contents}
use distributed_server_clien.Server.Consistency.Sizes.{
  append-ne, total-erase, AllPresent-erase, present_of_has,
}
use distributed_server_clien.Server.Consistency.Handlers.{present-some, erased_lem}
use distributed_server_clien.Server.Threads.{Handler, owned}
use distributed_server_clien.Server.Threads.Handlers.{AllReceived_other, Sound}
use distributed_server_clien.Server.Threads.Ledger.{
  Books, disk-Books, remove_name-Books, free_space-Books,
}
use distributed_server_clien.Server.Threads.Owners.{
  erase_all, Owners, erase_all-erase, Owners-front, not-has_erased,
}

has_of_other : (f g : Bytes) (s : List Bytes) → f ≢ g → has f s ≡ true → has f (erase g s) ≡ true
unfolding has erase
has_of_other f g [] ne h = h
has_of_other f g (k ∷ ks) ne h =
    ground (arith, has_of_other f g ks ne, str_eq_iff f k, str_eq_iff g k)

-- A name of no upload.
has_of_no_owner :
    (f : Bytes) (os names : List Bytes)
    → has f os ≡ false
    → has f names ≡ true
    → has f (erase_all os names) ≡ true
unfolding has
has_of_no_owner f [] names other h = h
has_of_no_owner f (g ∷ os) names other h =
    has_of_no_owner f os (erase g names) (ground arith)
      (has_of_other f g names (λ e. ground (arith, str_eq_iff f g)) h)

Owners-with :
    (f : Bytes) (os names : List Bytes)
    → has f (erase_all os names) ≡ true
    → Owners names os
    → Owners names (f ∷ os)
Owners-with f [] names h o = (h, tt)
Owners-with f (g ∷ os) names h (there, rest) =
    Owners-front f (g ∷ []) os names (there, Owners-with f os (erase g names) h rest)

-- Whoever removes a file takes its name and its space first.
taken-Books :
    {limit : ℕ} {s : Storage} {c : Contents} {os : List Bytes} {pend : ℕ} (f bytes : Bytes)
    → has f (erase_all os s.files_in_storage) ≡ true
    → c f ≡ some bytes
    → Books limit s c os pend
    → Books limit s c (f ∷ os) (length bytes + pend)
taken-Books {limit} {s} {c} {os} {pend} f bytes h there b =
    let left = erase_all os s.files_in_storage in
    let apart = erase_all-erase f os s.files_in_storage in
    record {
      sorted = b.sorted;
      files = rw apart (AllPresent-erase c f left b.files);
      counted =
          omega (arith, b.counted, total-erase c f left h, ap byte_count there, ap (total c) apart);
      bounded = b.bounded;
      room = b.room;
      word = b.word;
      owners = Owners-with f os s.files_in_storage h b.owners;
    }

module _ (fs : FileSystem) (laws : IsReliable fs) (limit : ℕ) (node : Node fs.Disk)
    (hs : List Handler) (f : Bytes) (i : Sound fs limit node hs) where
  open fs use {Disk, content, file_size, remove}

  removed-Sound :
      (bytes : Bytes) (d : Disk)
      → has f (erase_all (owned hs) node.storage.files_in_storage) ≡ true
      → contents fs node f ≡ some bytes
      → ((g : Bytes) → f ≢ g → content d (node.shared_folder ++ g) ≡ contents fs node g)
      → Sound fs limit
          (record node {
            storage = free_space (remove_file_from_storage node.storage f).0 (length bytes);
            disk = d;
          })
          hs
  removed-Sound bytes d h there others =
      let c' = λ (g : Bytes). content d (node.shared_folder ++ g) in
      let taken = taken-Books f bytes h there i.books in
      let off = disk-Books f c' others taken in
      record {
        books = free_space-Books (length bytes) (remove_name-Books f off);
        received =
            AllReceived_other (contents fs node) c' f others hs
              (erase f node.storage.files_in_storage)
              (not-has_erased f node.storage.files_in_storage i.books.sorted) taken.owners.1
              i.received;
      }

  remove_from_disk-Sound :
      (bytes : Bytes)
      → has f (erase_all (owned hs) node.storage.files_in_storage) ≡ true
      → contents fs node f ≡ some bytes
      → Sound fs limit
          (remove_from_disk fs node
            (remove_file_from_storage node.storage f).0
            (node.shared_folder ++ f))
          hs
  unfolding remove_from_disk
  remove_from_disk-Sound bytes h there =
      let path = node.shared_folder ++ f in
      let sized : file_size node.disk path ≡ some (length bytes) =
        laws.measured node.disk path bytes there in
      elim (Option-cases (remove node.disk path)) [
        | inl kept ↦
            rw (sized, kept, remove_from_disk)
              (removed-Sound bytes node.disk h there (λ g ne. refl))
        | inr (d, gone) ↦
            rw (sized, gone, remove_from_disk)
              (removed-Sound bytes d h there (λ g ne.
                laws.lawful.content-remove node.disk d path (node.shared_folder ++ g) gone
                ∙ rw (
                    str_eq_ne path (node.shared_folder ++ g)
                      (append-ne node.shared_folder f g ne))))
      ]

  pub handle_remove_request-Sound :
      has f (owned hs) ≡ false → Sound fs limit (handle_remove_request fs node f) hs
  handle_remove_request-Sound other = elim (Bool-cases (has f node.storage.files_in_storage)) [
    | inr unknown ↦ rw (handle_remove_request_unknown fs laws node f unknown) i
    | inl known ↦
        let left = erase_all (owned hs) node.storage.files_in_storage in
        let h = has_of_no_owner f (owned hs) node.storage.files_in_storage other known in
        let (bytes, there) =
          present-some (contents fs node f)
            (present_of_has (contents fs node) f left i.books.files h) in
        rw (handle_remove_request_known fs laws node f (erased_lem node.storage f known))
          (remove_from_disk-Sound bytes h there)
  ]
