-- ===== src/Server/Consistency/Handlers.antt =====
-- The handlers keep the books and the disk in agreement, and change the files only as a store may.
use mathlib.Core.Path.{subst}
use distributed_server_clien.Prelude.Bytes.{Bytes, str_eq_ne}
use distributed_server_clien.Prelude.{
  ℕ, ◌≡◌, ◌≢◌, ◌∙◌, refl, sym, ap, ◌++◌, true, false, Option, none, some, arith, Bool-cases,
  Option-cases, inl, inr, length,
}
use distributed_server_clien.Server.FileSystem.{FileSystem, IsReliable, present}
use distributed_server_clien.Server.FileSet.{has}
use distributed_server_clien.Server.Storage.{Storage, remove_file_from_storage, free_space}
use distributed_server_clien.Server.Request.{Request, upload, remove}
use distributed_server_clien.Server.Upload.{Node, UploadNet, handle_upload_request}
use distributed_server_clien.Server.Upload.Atomic.{
  with_file, path_of, Stored, Atomic, handle_upload_request-Atomic,
}
use distributed_server_clien.Server.Upload.Refused.{handle_upload_request_old}
use distributed_server_clien.Server.Remove.{remove_from_disk, handle_remove_request}
use distributed_server_clien.Server.Remove.Restore.{
  handle_remove_request_unknown, handle_remove_request_known,
}
use distributed_server_clien.Server.Store.{Store, StoreStep, uploaded, not_uploaded, removed}
use distributed_server_clien.Server.Store.Views.{
  view, view_of_not-has, view-insert, view-erase, put-none,
}
use distributed_server_clien.Server.Consistency.{Agree, contents, IsConsistent}
use distributed_server_clien.Server.Consistency.Sizes.{present_of_has, append-ne}
use distributed_server_clien.Server.Consistency.Books.{
  Agree-of_not-has, with_file-Agree, free_space-Agree,
}

pub present-some : (o : Option Bytes) → present o ≡ true → (bs : Bytes) × (o ≡ some bs)
present-some none h = absurd (cc h)
present-some (some bs) h = (bs, refl)

pub erased_lem :
    (s : Storage) (f : Bytes)
    → has f s.files_in_storage ≡ true
    → (remove_file_from_storage s f).1 ≡ 1
unfolding remove_file_from_storage
erased_lem s f h = rw h

module _ (fs : FileSystem) (laws : IsReliable fs) (limit : ℕ) where
  open fs use {Disk, content, file_size}

  -- The store that a node stands for.
  abbrev pub store : Node Disk → Store
  store node = view (contents fs node) node.storage.files_in_storage

  -- What a request may do to a node.
  abbrev pub Serves : Node Disk → Request → Node Disk → Type 0
  Serves node r node' = IsConsistent fs limit node' × StoreStep (store node) r (store node')

  -- What an upload that ran to its end has done.
  abbrev pub ServesUpload : Node Disk → Request → Option (Node Disk × Option Bytes) → Type 0
  ServesUpload node r none = Unit {0}
  ServesUpload node r (some (node', reply)) = Serves node r node'

  module _ (node : Node Disk) (f : Bytes) (ok : IsConsistent fs limit node) where
    module _ (node' : Node Disk)
        (others : (q : Bytes)
          → path_of fs laws node f ≢ q
          → content node'.disk q ≡ content node.disk q)
        (folder : node'.shared_folder ≡ node.shared_folder) where
      other_files : (g : Bytes) → f ≢ g → contents fs node' g ≡ contents fs node g
      other_files g ne =
          ap (λ (path : Bytes). content node'.disk (path ++ g)) folder
          ∙ others (node.shared_folder ++ g) (append-ne node.shared_folder f g ne)

      unchanged-Serves :
          (seq size : ℕ)
          → has f node.storage.files_in_storage ≡ false
          → node'.storage ≡ node.storage
          → Serves node (upload seq f size) node'
      unchanged-Serves seq size new same =
          let c = contents fs node in
          let c' = contents fs node' in
          (
            subst (λ (s : Storage). Agree limit s c') (sym same)
                (Agree-of_not-has limit node.storage c c' f other_files ok new),
            not_uploaded (
                ap (λ (s : Storage). view c' s.files_in_storage) same
                ∙ view_of_not-has c c' f other_files node.storage.files_in_storage new),
          )

      Stored-Serves :
          (seq size : ℕ) → Stored fs laws node f size node' → Serves node (upload seq f size) node'
      Stored-Serves seq size st =
          let c = contents fs node in
          let c' = contents fs node' in
          let (bytes, on_disk, sized) = st.whole in
          let stored : c' f ≡ some bytes =
            ap (λ (path : Bytes). content node'.disk (path ++ f)) folder ∙ on_disk in
          (
            subst (λ (s : Storage). Agree limit s c')
                (ap (λ (n : ℕ). with_file node.storage f n) sized ∙ sym st.storage)
                (with_file-Agree limit node.storage c c' f other_files ok bytes st.is_new
                  (omega (arith, sized, st.fits, ok.room)) stored),
            uploaded bytes (rw st.is_new) sized (
                ap (λ (s : Storage). view c' s.files_in_storage) st.storage
                ∙ view-insert c c' f other_files node.storage.files_in_storage bytes stored),
          )

    Atomic-Serves :
        (seq size : ℕ) (r : Option (Node Disk × Option Bytes))
        → has f node.storage.files_in_storage ≡ false
        → Atomic fs laws node f size r
        → ServesUpload node (upload seq f size) r
    Atomic-Serves seq size none new a = tt
    Atomic-Serves seq size (some (node', reply)) new (inl same, others, folder) =
        unchanged-Serves node' others folder seq size new same
    Atomic-Serves seq size (some (node', reply)) new (inr st, others, folder) =
        Stored-Serves node' others folder seq size st

    pub handle_upload_request-Serves :
        (net : UploadNet) (seq size : ℕ)
        → ServesUpload node (upload seq f size) (handle_upload_request fs net node seq f size)
    handle_upload_request-Serves net seq size =
        elim (Bool-cases (has f node.storage.files_in_storage)) [
          | inl old ↦
              let (reply, run) =
                handle_upload_request_old fs net seq f node size ok.sorted
                  (omega (arith, ok.room, ok.word)) old in
              rw run (ok, not_uploaded refl)
          | inr new ↦ Atomic-Serves seq size (handle_upload_request fs net node seq f size) new (
              handle_upload_request-Atomic fs laws net node seq f size ok.sorted
                (omega (arith, ok.room, ok.word)))
        ]

    -- A file that is in storage: its size is given back, and it is out of the store even if the
    -- disk keeps it.
    removed-Serves :
        (bytes : Bytes) (d : Disk)
        → has f node.storage.files_in_storage ≡ true
        → contents fs node f ≡ some bytes
        → ((q : Bytes) → path_of fs laws node f ≢ q → content d q ≡ content node.disk q)
        → Serves node (remove f) (record node {
          storage = free_space (remove_file_from_storage node.storage f).0 (length bytes);
          disk = d;
        })
    unfolding remove_file_from_storage free_space
    removed-Serves bytes d old stored others =
        let node' = record node { disk = d } in
        let c = contents fs node in
        let same = other_files node' others refl in
        (
          free_space-Agree limit node.storage c (contents fs node') f same ok bytes old stored,
          removed (view-erase c (contents fs node') f same node.storage.files_in_storage ok.sorted),
        )

    remove_from_disk-Serves :
        (bytes : Bytes)
        → has f node.storage.files_in_storage ≡ true
        → contents fs node f ≡ some bytes
        → Serves node (remove f) (
            remove_from_disk fs node
              (remove_file_from_storage node.storage f).0
              (path_of fs laws node f))
    unfolding remove_from_disk
    remove_from_disk-Serves bytes old stored =
        let path = path_of fs laws node f in
        let sized : file_size node.disk path ≡ some (length bytes) =
          laws.measured node.disk path bytes stored in
        elim (Option-cases (fs.remove node.disk path)) [
          | inl e ↦
              rw (sized, remove_from_disk, e)
                (removed-Serves bytes node.disk old stored (λ q ne. refl))
          | inr (d, e) ↦
              rw (sized, remove_from_disk, e)
                (removed-Serves bytes d old stored (λ q ne.
                  laws.lawful.content-remove node.disk d path q e ∙ rw (str_eq_ne path q ne)))
        ]

    pub handle_remove_request-Serves : Serves node (remove f) (handle_remove_request fs node f)
    handle_remove_request-Serves = elim (Bool-cases (has f node.storage.files_in_storage)) [
      | inl old ↦
          let (bytes, stored) =
            present-some (contents fs node f)
              (present_of_has (contents fs node) f node.storage.files_in_storage ok.files old) in
          rw (handle_remove_request_known fs laws node f (erased_lem node.storage f old))
            (remove_from_disk-Serves bytes old stored)
      | inr new ↦
          rw (handle_remove_request_unknown fs laws node f new)
            (ok, removed (put-none (contents fs node) node.storage.files_in_storage f new))
    ]
