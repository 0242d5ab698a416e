-- ===== src/Server/Upload/Refused.antt =====
-- When an upload request is refused, and that a refusal leaves the node as it was.
use distributed_server_clien.Prelude.Bytes.{Bytes, contains}
use distributed_server_clien.Prelude.{
  ℕ, ◌^◌, ◌<◌, ◌≡◌, ◌⊎◌, inl, inr, ap, Bool, true, false, not, ◌&&◌, Option, some, [], ◌∷◌, arith,
  Bool-cases,
}
use distributed_server_clien.Protocol.Validation.{is_empty}
use distributed_server_clien.Server.FileSystem.{FileSystem}
use distributed_server_clien.Server.FileSet.{has}
use distributed_server_clien.Server.FileSet.Order.{IsSorted}
use distributed_server_clien.Server.Storage.{Storage, add_file_to_storage, check_and_reserve_space}
use distributed_server_clien.Server.Upload.Atomic.{reserved_lem, free_space-add_file}
use distributed_server_clien.Server.Upload.{Node, UploadNet, refuse, handle_upload_request}

-- The name is one that the handler stores a file under.
abbrev pub is_proper : Bytes → Bool
is_proper f = not (is_empty f) && not (contains (b'/' ∷ []) f)

module _ (fs : FileSystem) (net : UploadNet) (seq : ℕ) (f : Bytes) where
  open fs use {Disk}

  pub handle_upload_request-refuse :
      (node : Node Disk) (size : ℕ)
      → IsSorted node.storage.files_in_storage
      → node.storage.max_available_space < 2 ^ 64
      → (is_proper f ≡ false)
        ⊎ ((has f node.storage.files_in_storage ≡ true)
            ⊎ ((check_and_reserve_space node.storage size).1 ≡ false))
      → handle_upload_request fs net node seq f size ≡ refuse fs net node seq f
  unfolding handle_upload_request add_file_to_storage
  handle_upload_request-refuse node size sorted m why = elim (Bool-cases (is_proper f)) [
    | inr bad ↦ rw bad
    | inl good ↦ elim (Bool-cases (check_and_reserve_space node.storage size).1) [
      | inr full ↦ rw (good, full)
      | inl room ↦
          let (reserved, fits) = reserved_lem node.storage size m room in
          let old : has f node.storage.files_in_storage ≡ true = grind arith in
          rw (good, room, reserved, old)
            (ap (λ (s : Storage). refuse fs net (record node { storage = s }) seq f)
              (free_space-add_file node.storage f size sorted old (omega (arith, fits))))
    ]
  ]

  -- A name that is in storage: whatever the size, the node stays as it is.
  pub handle_upload_request_old :
      (node : Node Disk) (size : ℕ)
      → IsSorted node.storage.files_in_storage
      → node.storage.max_available_space < 2 ^ 64
      → has f node.storage.files_in_storage ≡ true
      → (reply : Option Bytes) × (handle_upload_request fs net node seq f size ≡ some (node, reply))
  unfolding refuse
  handle_upload_request_old node size sorted m old =
      (_, handle_upload_request-refuse node size sorted m (inr (inl old)))
