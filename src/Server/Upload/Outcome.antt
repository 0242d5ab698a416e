-- ===== src/Server/Upload/Outcome.antt =====
-- What an upload request leaves behind, whatever the client and the network do.
use distributed_server_clien.Prelude.Bytes.{Bytes}
use distributed_server_clien.Prelude.{ℕ, ◌^◌, ◌<◌, ◌≡◌, ◌≢◌, ◌⊎◌, Option, none, some}
use distributed_server_clien.Server.FileSystem.{FileSystem, IsReliable}
use distributed_server_clien.Server.FileSet.Order.{IsSorted}
use distributed_server_clien.Server.Upload.Atomic.{
  path_of, Stored, Atomic, handle_upload_request-Atomic,
}
use distributed_server_clien.Server.Upload.{Node, UploadNet, handle_upload_request}

module _ (fs : FileSystem) (laws : IsReliable fs) where
  open fs use {Disk, content}

  -- The names and the counter, and the bytes of the new file, after a handler that ran to its end.
  abbrev pub Booked : Node Disk → Bytes → ℕ → Option (Node Disk × Option Bytes) → Type 0
  Booked node filename size none = Unit {0}
  Booked node filename size (some (node', reply)) =
      (node'.storage ≡ node.storage) ⊎ Stored fs laws node filename size node'

  -- The file at `q`, after a handler that ran to its end.
  abbrev pub Kept : Node Disk → Bytes → Option (Node Disk × Option Bytes) → Type 0
  Kept node q none = Unit {0}
  Kept node q (some (node', reply)) = content node'.disk q ≡ content node.disk q

  module _ (net : UploadNet) (node : Node Disk) (seq : ℕ) (f : Bytes) (size : ℕ)
      (sorted : IsSorted node.storage.files_in_storage)
      (m : node.storage.max_available_space < 2 ^ 64) where
    booked_lem :
        (r : Option (Node Disk × Option Bytes))
        → Atomic fs laws node f size r
        → Booked node f size r
    booked_lem none a = tt
    booked_lem (some (node', reply)) a = a.0

    kept_lem :
        (r : Option (Node Disk × Option Bytes)) (q : Bytes)
        → Atomic fs laws node f size r
        → path_of fs laws node f ≢ q
        → Kept node q r
    kept_lem none q a ne = tt
    kept_lem (some (node', reply)) q a ne = a.1 q ne

    -- For a sorted set of names and a `max_available_space` of 64 bits: on a reliable file system
    -- (every write to an open file arrives, and the size of a file can be read), whatever the
    -- sockets do, whichever files do not open and whichever removals fail, if
    -- `handle_upload_request` runs to its end, the storage of the node is as before, or the name
    -- was new, its size fitted, name and size are on the books, and the file on the disk has
    -- exactly the announced size.
    pub handle_upload_request-Booked :
        Booked node f size (handle_upload_request fs net node seq f size)
    handle_upload_request-Booked =
        booked_lem (handle_upload_request fs net node seq f size)
          (handle_upload_request-Atomic fs laws net node seq f size sorted m)

    -- For a sorted set of names, a `max_available_space` of 64 bits and a reliable file system, a
    -- file at any other path than that of the upload has the content it had, if the handler runs to
    -- its end.
    pub handle_upload_request-Kept :
        (q : Bytes)
        → path_of fs laws node f ≢ q
        → Kept node q (handle_upload_request fs net node seq f size)
    handle_upload_request-Kept q ne =
        kept_lem (handle_upload_request fs net node seq f size) q
          (handle_upload_request-Atomic fs laws net node seq f size sorted m) ne
