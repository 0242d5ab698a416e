-- ===== src/Server/Threads/Ledger.antt =====
-- The books of the server while uploads are under way.
use distributed_server_clien.Prelude.Bytes.{Bytes, str_eq_refl}
use distributed_server_clien.Prelude.{
  ℕ, ◌+◌, ◌^◌, ◌≤◌, ◌<◌, ◌≡◌, ◌≢◌, ◌∙◌, ap, true, false, List, [], ◌∷◌, ◌++◌, some, arith, length,
}
use distributed_server_clien.Server.FileSystem.{present}
use distributed_server_clien.Server.FileSet.{has, erase, erase-insert, has-insert}
use distributed_server_clien.Server.FileSet.Order.{
  IsSorted, erase-IsSorted, insert-IsSorted, insert_of_has,
}
use distributed_server_clien.Server.Storage.{
  Storage, add_file_to_storage, remove_file_from_storage, check_and_reserve_space, free_space,
}
use distributed_server_clien.Server.Consistency.{Contents, byte_count, total, AllPresent, Agree}
use distributed_server_clien.Server.Consistency.Sizes.{
  total_of_not-has, AllPresent-of_not-has, total-erase,
}
use distributed_server_clien.Server.Threads.Owners.{
  erase_all, Owners, erase_all-erase, erase_all_front, Owners-front, has-erase_all,
  Owners-of_one_more, not-has-erase_all, not-has_erased, AllPresent-of_erase,
}

-- The counter is the size of the files whose upload is over, together with `pending`, what the
-- uploads of `os` and other requests have reserved.
pub record Books (limit : ℕ) (s : Storage) (c : Contents) (os : List Bytes) (pending : ℕ)
    : Type 0 where
  pub sorted : IsSorted s.files_in_storage
  pub files : AllPresent c (erase_all os s.files_in_storage)
  pub counted : s.used_space ≡ total c (erase_all os s.files_in_storage) + pending
  pub bounded : s.used_space ≤ limit
  pub room : s.max_available_space ≤ limit
  pub word : limit < 2 ^ 64
  pub owners : Owners s.files_in_storage os

-- With no upload under way, the books agree with the files.
pub Books-Agree : (limit : ℕ) (s : Storage) (c : Contents) → Books limit s c [] 0 → Agree limit s c
Books-Agree limit s c b = record {
  sorted = b.sorted;
  files = b.files;
  counted = omega (arith, b.counted);
  bounded = b.bounded;
  room = b.room;
  word = b.word;
}

pub Books-of_Agree :
    (limit : ℕ) (s : Storage) (c : Contents) → Agree limit s c → Books limit s c [] 0
Books-of_Agree limit s c a = record {
  sorted = a.sorted;
  files = a.files;
  counted = omega (arith, a.counted);
  bounded = a.bounded;
  room = a.room;
  word = a.word;
  owners = tt;
}

module _ {limit : ℕ} {s : Storage} {c : Contents} {os : List Bytes} {pending : ℕ} where
  pub reserve-Books :
      (size : ℕ)
      → (check_and_reserve_space s size).1 ≡ true
      → Books limit s c os pending
      → Books limit (check_and_reserve_space s size).0 c os (size + pending)
  unfolding check_and_reserve_space
  reserve-Books size h b = record {
    sorted = ground (arith, b.sorted);
    files = ground (arith, b.files);
    counted = ground (arith, b.counted, b.room, b.word);
    bounded = ground (arith, b.room, b.word);
    room = ground (arith, b.room);
    word = b.word;
    owners = ground (arith, b.owners);
  }

  pub refuse-Books :
      (size : ℕ)
      → (check_and_reserve_space s size).1 ≡ false
      → Books limit s c os pending
      → Books limit (check_and_reserve_space s size).0 c os pending
  unfolding check_and_reserve_space
  refuse-Books size h b =
      let same : (check_and_reserve_space s size).0 ≡ s = ground arith in rw same b

  pub free_space-Books :
      (size : ℕ)
      → Books limit s c os (size + pending)
      → Books limit (free_space s size) c os pending
  unfolding free_space
  free_space-Books size b = record {
    sorted = b.sorted;
    files = b.files;
    counted = omega (arith, b.counted, b.bounded, b.word);
    bounded = omega (arith, b.counted, b.bounded, b.word);
    room = b.room;
    word = b.word;
    owners = b.owners;
  }

  pub add_new-Books :
      (f : Bytes)
      → (add_file_to_storage s f).1 ≡ true
      → Books limit s c os pending
      → Books limit (add_file_to_storage s f).0 c (f ∷ os) pending
  unfolding add_file_to_storage
  add_new-Books f h b =
      let new : has f s.files_in_storage ≡ false = ground arith in
      let back = erase-insert f s.files_in_storage new in
      record {
        sorted = insert-IsSorted f s.files_in_storage b.sorted;
        files = rw back b.files;
        counted = rw back b.counted;
        bounded = b.bounded;
        room = b.room;
        word = b.word;
        owners =
            (ground (arith, has-insert f f s.files_in_storage, str_eq_refl f), rw back b.owners);
      }

  pub add_old-Books :
      (f : Bytes)
      → (add_file_to_storage s f).1 ≡ false
      → Books limit s c os pending
      → Books limit (add_file_to_storage s f).0 c os pending
  unfolding add_file_to_storage
  add_old-Books f h b = rw (insert_of_has f s.files_in_storage b.sorted (ground arith)) b

  pub remove_name-Books :
      (f : Bytes)
      → Books limit s c (f ∷ os) pending
      → Books limit (remove_file_from_storage s f).0 c os pending
  unfolding remove_file_from_storage
  remove_name-Books f b = record {
    sorted = erase-IsSorted f s.files_in_storage b.sorted;
    files = b.files;
    counted = b.counted;
    bounded = b.bounded;
    room = b.room;
    word = b.word;
    owners = b.owners.1;
  }

  pub disk-Books :
      (f : Bytes) (c' : Contents)
      → ((g : Bytes) → f ≢ g → c' g ≡ c g)
      → Books limit s c (f ∷ os) pending
      → Books limit s c' (f ∷ os) pending
  disk-Books f c' same b =
      let gone =
        not-has-erase_all f os (erase f s.files_in_storage)
          (not-has_erased f s.files_in_storage b.sorted) in
      let others = erase_all (f ∷ os) s.files_in_storage in
      record {
        sorted = b.sorted;
        files = AllPresent-of_not-has c c' f same others gone b.files;
        counted = rw (total_of_not-has c c' f same others gone) b.counted;
        bounded = b.bounded;
        room = b.room;
        word = b.word;
        owners = b.owners;
      }

  pub stored-Books :
      (f bytes : Bytes)
      → c f ≡ some bytes
      → Books limit s c (f ∷ os) (length bytes + pending)
      → Books limit s c os pending
  stored-Books f bytes there b =
      let apart = erase_all-erase f os s.files_in_storage in
      let more =
        total-erase c f (erase_all os s.files_in_storage)
          (has-erase_all f os s.files_in_storage b.owners) in
      record {
        sorted = b.sorted;
        files =
            AllPresent-of_erase c f (erase_all os s.files_in_storage) (ap present there)
              (rw apart at b.files);
        counted = omega (arith, b.counted, more, ap byte_count there, ap (total c) apart);
        bounded = b.bounded;
        room = b.room;
        word = b.word;
        owners = Owners-of_one_more f os s.files_in_storage b.owners;
      }

module _ {limit : ℕ} {s : Storage} {c : Contents} {pending : ℕ} where
  -- The order of the uploads does not matter.
  pub front-Books :
      (f : Bytes) (os us : List Bytes)
      → Books limit s c (os ++ f ∷ us) pending
      → Books limit s c (f ∷ os ++ us) pending
  front-Books f os us b =
      let same = erase_all_front f os us s.files_in_storage in
      record {
        sorted = b.sorted;
        files = rw same at b.files;
        counted = b.counted ∙ ap (λ names. total c names + pending) same;
        bounded = b.bounded;
        room = b.room;
        word = b.word;
        owners = Owners-front f os us s.files_in_storage b.owners;
      }
