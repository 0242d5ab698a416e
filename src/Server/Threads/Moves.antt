-- ===== src/Server/Threads/Moves.antt =====
-- What a move of a handler keeps.
use distributed_server_clien.Prelude.Bytes.{Bytes, str_eq_ne, str_eq_refl}
use distributed_server_clien.Prelude.{
  ℕ, ◌+◌, ◌-◌, ◌≡◌, ◌≢◌, ◌∙◌, sym, Bool, false, not, ◌||◌, List, [], ◌∷◌, ◌++◌, some, ◌==◌, length,
  length-append, length-take, take, min, arith, Bool-cases, inl, inr,
}
use distributed_server_clien.Protocol.{max_buffer_size}
use distributed_server_clien.Server.FileSystem.{FileSystem, IsReliable, content-write}
use distributed_server_clien.Server.FileSet.{erase}
use distributed_server_clien.Server.Storage.{Storage}
use distributed_server_clien.Server.Upload.{remove_partial}
use distributed_server_clien.Server.Upload.Atomic.{remove_partial_other}
use distributed_server_clien.Server.Consistency.Sizes.{append-ne}
use distributed_server_clien.Server.Threads.Owners.{not-has_erased}
use distributed_server_clien.Server.Threads.Ledger.{
  Books, reserve-Books, refuse-Books, free_space-Books, add_new-Books, add_old-Books,
  remove_name-Books, disk-Books, stored-Books,
}
use distributed_server_clien.Server.Threads.Handlers.{pending, AllReceived, AllReceived_other}
use distributed_server_clien.Server.Threads.{
  owned, Phase, Handler, Move, reserve, no_space, add, add_old, give_back, not_announced,
  not_opened, open_file, receive, read_failed, stop, remove_file, free, remove_name,
}

received_more :
    (to_upload size : ℕ) (old bs : Bytes)
    → length old + to_upload ≡ size
    → length (old ++ take (min max_buffer_size to_upload) bs)
        + (to_upload - length (take (min max_buffer_size to_upload) bs))
      ≡ size
received_more to_upload size old bs rest =
    let got = take (min max_buffer_size to_upload) bs in
    omega
      (arith, rest, length-append {0} old got, length-take {0} (min max_buffer_size to_upload) bs)

all_received :
    (failed : Bool) (to_upload size : ℕ) (bytes : Bytes)
    → (failed || not (to_upload == 0)) ≡ false
    → length bytes + to_upload ≡ size
    → length bytes ≡ size
all_received failed to_upload size bytes good rest = ground arith

module _ (fs : FileSystem) (laws : IsReliable fs) (limit : ℕ) where
  open fs use {Disk, content, open_out, write, exists, remove}

  -- A call of the file system for one file.
  Others : Bytes → Disk → Disk → Type 0
  Others path d d' = (q : Bytes) → path ≢ q → content d' q ≡ content d q

  open_out-Others : (d d' : Disk) (path : Bytes) → open_out d path ≡ some d' → Others path d d'
  unfolding Others
  open_out-Others d d' path h q ne =
      laws.lawful.content-open_out d d' path q h ∙ rw (str_eq_ne path q ne)

  write-Others :
      (d : Disk) (path old new : Bytes)
      → content d path ≡ some old
      → Others path d (write d path new)
  unfolding Others
  write-Others d path old new h q ne =
      content-write fs laws d path q old new h ∙ rw (str_eq_ne path q ne)

  remove_partial-Others :
      (d d' : Disk) (path : Bytes) → remove_partial fs d path ≡ some d' → Others path d d'
  unfolding Others
  remove_partial-Others d d' path h q ne = remove_partial_other fs laws d d' path q h ne

  opened : (d d' : Disk) (path : Bytes) → open_out d path ≡ some d' → content d' path ≡ some []
  opened d d' path h = laws.lawful.content-open_out d d' path path h ∙ rw (str_eq_refl path)

  written :
      (d : Disk) (path old new : Bytes)
      → content d path ≡ some old
      → content (write d path new) path ≡ some (old ++ new)
  written d path old new h = content-write fs laws d path path old new h ∙ rw (str_eq_refl path)

  -- Sound, of the parts of a node.
  pub record Parts (folder : Bytes) (s : Storage) (d : Disk) (hs : List Handler) : Type 0 where
    pub books : Books limit s (λ f. content d (folder ++ f)) (owned hs) (pending hs)
    pub received : AllReceived (λ f. content d (folder ++ f)) hs

  module _ (folder f : Bytes) (size : ℕ) (s : Storage) (d : Disk) (hs : List Handler) where
    abbrev at_phase : Phase → List Handler
    at_phase p = record { filename = f; file_size = size; phase = p } ∷ hs

    -- A step that changes the file of a handler that owns its name.
    disk-Parts :
        (d' : Disk)
        → Books limit s (λ g. content d (folder ++ g)) (f ∷ owned hs) (size + pending hs)
        → AllReceived (λ g. content d (folder ++ g)) hs
        → Others (folder ++ f) d d'
        → Books limit s (λ g. content d' (folder ++ g)) (f ∷ owned hs) (size + pending hs)
          × AllReceived (λ g. content d' (folder ++ g)) hs
    unfolding Others
    disk-Parts d' b r others =
        let same = λ (g : Bytes) (ne : f ≢ g). others (folder ++ g) (append-ne folder f g ne) in
        (
          disk-Books f (λ g. content d' (folder ++ g)) same b,
          AllReceived_other (λ g. content d (folder ++ g)) (λ g. content d' (folder ++ g)) f same hs
              (erase f s.files_in_storage) (not-has_erased f s.files_in_storage b.sorted) b.owners.1
              r,
        )

    pub Move-Parts :
        (p p' : Phase) (s' : Storage) (d' : Disk)
        → Move fs (folder ++ f) f size s d p s' d' p'
        → Parts folder s d (at_phase p)
        → Parts folder s' d' (at_phase p')
    Move-Parts _ _ _ _ (reserve h) i = record {
      books = reserve-Books size h i.books;
      received = (tt, i.received.1);
    }
    Move-Parts _ _ _ _ (no_space h) i = record {
      books = refuse-Books size h i.books;
      received = (tt, i.received.1);
    }
    Move-Parts _ _ _ _ (add h) i = record {
      books = add_new-Books f h i.books;
      received = (tt, i.received.1);
    }
    Move-Parts _ _ _ _ (add_old h) i = record {
      books = add_old-Books f h i.books;
      received = (tt, i.received.1);
    }
    Move-Parts _ _ _ _ give_back i = record {
      books = free_space-Books size i.books;
      received = (tt, i.received.1);
    }
    Move-Parts _ _ _ _ not_announced i = record { books = i.books; received = (tt, i.received.1) }
    Move-Parts _ _ _ _ not_opened i = record { books = i.books; received = (tt, i.received.1) }
    Move-Parts _ _ _ _ (open_file failed d' h) i =
        let (b, r) = disk-Parts d' i.books i.received.1 (open_out-Others d d' (folder ++ f) h) in
        record { books = b; received = (([], opened d d' (folder ++ f) h, omega arith), r) }
    Move-Parts _ _ _ _ (receive to_upload failed bs h) i =
        let ((old, there, rest), others) = i.received in
        let (b, r) = disk-Parts _ i.books others (write-Others d (folder ++ f) old _ there) in
        record {
          books = b;
          received = (
            (
              old ++ take (min max_buffer_size to_upload) bs,
              written d (folder ++ f) old _ there,
              received_more to_upload size old bs rest,
            ),
            r,
          );
        }
    Move-Parts _ _ _ _ (read_failed to_upload failed) i = record {
      books = i.books;
      received = (tt, i.received.1);
    }
    Move-Parts _ _ _ _ (stop to_upload failed) i =
        let ((bytes, there, rest), others) = i.received in
        elim (Bool-cases (failed || not (to_upload == 0))) [
          | inl bad ↦ rw bad (record { books = i.books; received = (tt, others) })
          | inr good ↦ rw good (record {
            books =
                stored-Books f bytes there
                  (rw (sym (all_received failed to_upload size bytes good rest)) at i.books);
            received = (tt, others);
          })
        ]
    Move-Parts _ _ _ _ (remove_file d' h) i =
        let (b, r) =
          disk-Parts d' i.books i.received.1 (remove_partial-Others d d' (folder ++ f) h) in
        record { books = b; received = (tt, r) }
    Move-Parts _ _ _ _ free i = record {
      books = free_space-Books size i.books;
      received = (tt, i.received.1);
    }
    Move-Parts _ _ _ _ remove_name i = record {
      books = remove_name-Books f i.books;
      received = (tt, i.received.1);
    }
