-- ===== src/Server/Upload/Atomic.antt =====
-- An upload is stored whole, or the storage is as before.
use distributed_server_clien.Prelude.Bytes.{Bytes, contains, str_eq_ne}
use distributed_server_clien.Prelude.{
  ℕ, ◌+◌, ◌^◌, ◌≤◌, ◌<◌, ◌≡◌, ◌≢◌, ◌⊎◌, refl, ◌∙◌, true, false, not, ◌&&◌, ◌||◌, [], ◌∷◌, ◌++◌,
  Option, none, some, inl, inr, arith, ◌==◌, Bool-cases, Option-cases, length,
}
use distributed_server_clien.Words.{htobe64}
use distributed_server_clien.Protocol.{file_add_acceptance, complex_message_no_data_size}
use distributed_server_clien.Protocol.Message.{complex_message}
use distributed_server_clien.Protocol.Validation.{is_empty}
use distributed_server_clien.Socket.Udp.{send_complex}
use distributed_server_clien.Server.FileSystem.{FileSystem, IsReliable}
use distributed_server_clien.Server.FileSet.{has, insert, erase-insert}
use distributed_server_clien.Server.FileSet.Order.{IsSorted, insert_of_has}
use distributed_server_clien.Server.Storage.{
  Storage, add_file_to_storage, remove_file_from_storage, check_and_reserve_space, free_space,
}
use distributed_server_clien.Server.Upload.Transfer.{transfer-IsSound}
use distributed_server_clien.Server.Upload.{
  Node, UploadNet, transfer, give_up, remove_partial, upload_file_via_tcp, refuse, accept_upload,
  with_reply, handle_upload_request,
}

-- The storage with a file more.
abbrev pub with_file : Storage → Bytes → ℕ → Storage
with_file s filename size = record s {
  used_space = s.used_space + size;
  files_in_storage = insert filename s.files_in_storage;
}

-- Both steps that reserve, and the two that give the reservation up.
pub give_up-with_file :
    (s : Storage) (f : Bytes) (size : ℕ)
    → has f s.files_in_storage ≡ false
    → s.used_space + size < 2 ^ 64
    → give_up (with_file s f size) f size ≡ s
unfolding give_up remove_file_from_storage free_space
give_up-with_file s f size new fits = ground (arith, erase-insert f s.files_in_storage new)

pub reserved_lem :
    (s : Storage) (size : ℕ)
    → s.max_available_space < 2 ^ 64
    → (check_and_reserve_space s size).1 ≡ true
    → ((check_and_reserve_space s size).0 ≡ record s { used_space = s.used_space + size })
      × (s.used_space + size ≤ s.max_available_space)
unfolding check_and_reserve_space
reserved_lem s size m h = ground arith

refused_space_lem :
    (s : Storage) (size : ℕ)
    → (check_and_reserve_space s size).1 ≡ false
    → (check_and_reserve_space s size).0 ≡ s
unfolding check_and_reserve_space
refused_space_lem s size h = ground arith

pub free_space-add_file :
    (s : Storage) (f : Bytes) (size : ℕ)
    → IsSorted s.files_in_storage
    → has f s.files_in_storage ≡ true
    → s.used_space + size < 2 ^ 64
    → free_space (add_file_to_storage (record s { used_space = s.used_space + size }) f).0 size ≡ s
unfolding free_space add_file_to_storage
free_space-add_file s f size sorted old fits =
    ground (arith, insert_of_has f s.files_in_storage sorted old)

module _ (fs : FileSystem) (laws : IsReliable fs) where
  open fs use {Disk, content, exists, remove}

  abbrev pub path_of : Node Disk → Bytes → Bytes
  path_of node filename = node.shared_folder ++ filename

  -- The file is new, its name and its size are on the books, and its bytes are on the disk.
  pub record Stored (node : Node Disk) (filename : Bytes) (size : ℕ) (node' : Node Disk)
      : Type 0 where
    pub is_new : has filename node.storage.files_in_storage ≡ false
    pub fits : node.storage.used_space + size ≤ node.storage.max_available_space
    pub storage : node'.storage ≡ with_file node.storage filename size
    pub whole :
        (got : Bytes) × (content node'.disk (path_of node filename) ≡ some got)
        × (length got ≡ size)

  abbrev pub AllOrNothing : Node Disk → Bytes → ℕ → Node Disk → Type 0
  AllOrNothing node filename size node' =
      ((node'.storage ≡ node.storage) ⊎ Stored node filename size node')
      × ((q : Bytes) → path_of node filename ≢ q → content node'.disk q ≡ content node.disk q)
      × (node'.shared_folder ≡ node.shared_folder)

  -- What a handler that ran to its end has done; an exception that ends the program leaves nothing
  -- to say.
  abbrev pub Atomic : Node Disk → Bytes → ℕ → Option (Node Disk × Option Bytes) → Type 0
  Atomic node filename size none = Unit {0}
  Atomic node filename size (some (node', reply)) = AllOrNothing node filename size node'

  pub remove_partial_other :
      (d d' : Disk) (p q : Bytes)
      → remove_partial fs d p ≡ some d'
      → p ≢ q
      → content d' q ≡ content d q
  unfolding remove_partial
  remove_partial_other d d' p q h ne = elim (Bool-cases (exists d p)) [
    | inl there ↦ laws.lawful.content-remove d d' p q (rw there at h) ∙ rw (str_eq_ne p q ne)
    | inr gone ↦ cc (rw gone at h)
  ]

  AllOrNothing-unchanged :
      (node node' : Node Disk) (f : Bytes) (size : ℕ)
      → node'.storage ≡ node.storage
      → node'.disk ≡ node.disk
      → node'.shared_folder ≡ node.shared_folder
      → AllOrNothing node f size node'
  AllOrNothing-unchanged node node' f size s d folder = (inl s, λ q ne. rw d, folder)

  module _ (node : Node Disk) (f : Bytes) (size : ℕ)
      (new : has f node.storage.files_in_storage ≡ false)
      (fits : node.storage.used_space + size ≤ node.storage.max_available_space)
      (m : node.storage.max_available_space < 2 ^ 64) where
    abbrev added : Node Disk
    added = record node { storage = with_file node.storage f size }

    upload_file_via_tcp-Atomic :
        (net : UploadNet) (reply : Option Bytes)
        → Atomic node f size (with_reply reply (upload_file_via_tcp fs net added f size))
    unfolding upload_file_via_tcp
    upload_file_via_tcp-Atomic net reply =
        let path = path_of node f in
        let r = transfer fs net path size node.disk in
        let sound = transfer-IsSound fs laws path net size node.disk in
        elim (Bool-cases (r.failed || not (r.to_upload == 0))) [
          | inl bad ↦ elim (Option-cases (remove_partial fs r.disk path)) [
            | inl e ↦ rw (bad, e, upload_file_via_tcp) tt
            | inr (d, e) ↦
                rw (bad, e, upload_file_via_tcp)
                  (
                    inl (give_up-with_file node.storage f size new (omega arith)),
                    λ q ne. remove_partial_other r.disk d path q e ne ∙ sound.others q ne,
                    refl,
                  )
          ]
          | inr good ↦ rw good (
            inr (record {
              is_new = new;
              fits = fits;
              storage = refl;
              whole = sound.whole (ground arith) (ground arith);
            }),
            sound.others,
            refl,
          )
        ]

    accept_upload-Atomic :
        (net : UploadNet) (seq : ℕ) → Atomic node f size (accept_upload fs net added seq f size)
    unfolding accept_upload
    accept_upload-Atomic net seq =
        let back =
          AllOrNothing-unchanged node
            (record added { storage = give_up (with_file node.storage f size) f size }) f size
            (give_up-with_file node.storage f size new (omega arith)) refl refl in
        elim (Bool-cases net.listening) [
          | inl up ↦
              elim (Option-cases (
                send_complex (net.sendto complex_message_no_data_size)
                  (complex_message (htobe64 seq) file_add_acceptance f (htobe64 net.port)) 0)) [
                    | inl e ↦ rw (up, e, accept_upload) back
                    | inr (d, e) ↦
                        rw (up, e, accept_upload) (upload_file_via_tcp-Atomic net (some d))
                  ]
          | inr down ↦ rw down back
        ]

  -- Whatever the client and the network do, an upload request that is handled to its end leaves the
  -- names and the space counter as they were, or else the name is new, its size fitted and is now
  -- counted, and the disk holds exactly the announced number of bytes under it; no other file is
  -- touched, and the folder is the same.
  pub handle_upload_request-Atomic :
      (net : UploadNet) (node : Node Disk) (seq : ℕ) (f : Bytes) (size : ℕ)
      → IsSorted node.storage.files_in_storage
      → node.storage.max_available_space < 2 ^ 64
      → Atomic node f size (handle_upload_request fs net node seq f size)
  unfolding handle_upload_request refuse add_file_to_storage
  handle_upload_request-Atomic net node seq f size sorted m =
      let named = not (is_empty f) && not (contains (b'/' ∷ []) f) in
      elim (Bool-cases named) [
        | inr bad ↦ rw bad (AllOrNothing-unchanged node node f size refl refl refl)
        | inl good ↦ elim (Bool-cases (check_and_reserve_space node.storage size).1) [
          | inr full ↦ rw (good, full) (AllOrNothing-unchanged node node f size refl refl refl)
          | inl room ↦
              let (reserved, fits) = reserved_lem node.storage size m room in
              elim (Bool-cases (has f node.storage.files_in_storage)) [
                | inl old ↦
                    rw (good, room, reserved, old)
                      (AllOrNothing-unchanged node _ f size
                        (free_space-add_file node.storage f size sorted old (omega arith)) refl
                        refl)
                | inr new ↦
                    rw (good, room, reserved, new)
                      (accept_upload-Atomic node f size new fits m net seq)
              ]
        ]
      ]
