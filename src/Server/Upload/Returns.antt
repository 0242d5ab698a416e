-- ===== src/Server/Upload/Returns.antt =====
-- The upload handler runs to its end.
use distributed_server_clien.Prelude.Bytes.{Bytes, contains}
use distributed_server_clien.Prelude.{
  ℕ, ◌≡◌, refl, true, not, ◌&&◌, ◌||◌, [], ◌∷◌, ◌++◌, Option, none, some, ◌==◌, Bool-cases,
  Option-cases, inl, inr,
}
use distributed_server_clien.Words.{htobe64}
use distributed_server_clien.Protocol.{file_add_acceptance, complex_message_no_data_size}
use distributed_server_clien.Protocol.Message.{complex_message}
use distributed_server_clien.Protocol.Validation.{is_empty}
use distributed_server_clien.Socket.Udp.{send_complex}
use distributed_server_clien.Server.FileSystem.{FileSystem, Removable}
use distributed_server_clien.Server.Storage.{
  Storage, add_file_to_storage, check_and_reserve_space, free_space,
}
use distributed_server_clien.Server.Upload.{
  Node, UploadNet, transfer, give_up, remove_partial, upload_file_via_tcp, refuse, accept_upload,
  with_reply, handle_upload_request,
}

module _ (fs : FileSystem) where
  open fs use {Disk, exists, remove}

  -- A handler that comes to its end, with the folder as it was.
  abbrev pub Returns : Bytes → Option (Node Disk × Option Bytes) → Type 0
  Returns folder o = (r : Node Disk × Option Bytes) × (o ≡ some r) × (r.0.shared_folder ≡ folder)

  module _ (net : UploadNet) (node : Node Disk) (f : Bytes) (size : ℕ)
      (good : (not (is_empty f) && not (contains (b'/' ∷ []) f)) ≡ true)
      (removable : Removable fs node.shared_folder f) where
    remove_partial_returns :
        (d : Disk) → (d' : Disk) × (remove_partial fs d (node.shared_folder ++ f) ≡ some d')
    unfolding remove_partial
    remove_partial_returns d = elim (Bool-cases (exists d (node.shared_folder ++ f))) [
      | inl there ↦ let (d', e) = removable good d there in (d', rw there e)
      | inr gone ↦ (d, rw gone)
    ]

    with_reply-Returns :
        (s : Storage) (reply : Option Bytes)
        → Returns node.shared_folder
            (with_reply reply (upload_file_via_tcp fs net (record node { storage = s }) f size))
    unfolding upload_file_via_tcp
    with_reply-Returns s reply =
        let r = transfer fs net (node.shared_folder ++ f) size node.disk in
        let (d, e) = remove_partial_returns r.disk in
        elim (Bool-cases (r.failed || not (r.to_upload == 0))) [
          | inl bad ↦ (
            (record node { storage = give_up s f size; disk = d }, reply),
            rw (bad, e, upload_file_via_tcp),
            refl,
          )
          | inr whole ↦ ((record node { storage = s; disk = r.disk }, reply), rw whole, refl)
        ]

    accept_upload-Returns :
        (s : Storage) (seq : ℕ)
        → Returns node.shared_folder (accept_upload fs net (record node { storage = s }) seq f size)
    unfolding accept_upload
    accept_upload-Returns s seq =
        let back = record node { storage = give_up s f size } in
        elim (Bool-cases net.listening) [
          | inl up ↦
              elim (Option-cases (
                send_complex (net.sendto complex_message_no_data_size)
                  (complex_message (htobe64 seq) file_add_acceptance f (htobe64 net.port)) 0)) [
                    | inl e ↦ rw (up, e, accept_upload) ((back, none), refl, refl)
                    | inr (d, e) ↦ rw (up, e, accept_upload) (with_reply-Returns s (some d))
                  ]
          | inr down ↦ ((back, none), rw down, refl)
        ]

  refuse-Returns :
      (net : UploadNet) (node : Node Disk) (seq : ℕ) (f : Bytes)
      → Returns node.shared_folder (refuse fs net node seq f)
  unfolding refuse
  refuse-Returns net node seq f = (_, refl, refl)

  -- If no directory stands under the name of the upload, `handle_upload_request` runs to its end,
  -- whatever the sockets and the file system do.
  pub handle_upload_request-Returns :
      (net : UploadNet) (node : Node Disk) (seq : ℕ) (f : Bytes) (size : ℕ)
      → Removable fs node.shared_folder f
      → Returns node.shared_folder (handle_upload_request fs net node seq f size)
  unfolding handle_upload_request
  handle_upload_request-Returns net node seq f size removable =
      let named = not (is_empty f) && not (contains (b'/' ∷ []) f) in
      let (reserved, granted) = check_and_reserve_space node.storage size in
      let (added, new) = add_file_to_storage reserved f in
      elim (Bool-cases named) [
        | inr bad ↦ rw bad (refuse-Returns net node seq f)
        | inl good ↦ elim (Bool-cases granted) [
          | inr full ↦ rw (good, full) (refuse-Returns net node seq f)
          | inl room ↦ elim (Bool-cases new) [
            | inr old ↦
                rw (good, room, old)
                  (refuse-Returns net (record node { storage = free_space added size }) seq f)
            | inl fresh ↦
                rw (good, room, fresh)
                  (accept_upload-Returns net node f size good removable added seq)
          ]
        ]
      ]
