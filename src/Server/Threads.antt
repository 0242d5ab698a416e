-- ===== src/Server/Threads.antt =====
-- The handler threads of uploads (`handler(...)` in `Server::run` of server/server.cpp starts them
-- with utilities/helper.h), interleaved in any order. A step is what one thread does between two
-- points where another one may go on: one operation of the storage, which is under its mutex, or
-- one call of the file system. A thread has no identity, so the threads are a list in any order.
pub mod Owners
pub mod Ledger
pub mod Handlers
pub mod Moves
pub mod Removal
pub mod Sound
pub mod Sequential
use distributed_server_clien.Prelude.Bytes.{Bytes, contains}
use distributed_server_clien.Prelude.{
  ℕ, ◌-◌, ◌≡◌, Bool, true, false, not, ◌&&◌, ◌||◌, List, [], ◌∷◌, ◌++◌, some, ◌==◌, if◌then◌else◌,
  length, take, min,
}
use distributed_server_clien.Protocol.{max_buffer_size}
use distributed_server_clien.Protocol.Validation.{is_empty}
use distributed_server_clien.Server.FileSystem.{FileSystem}
use distributed_server_clien.Server.FileSet.{has}
use distributed_server_clien.Server.Remove.{handle_remove_request}
use distributed_server_clien.Server.Storage.{
  Storage, add_file_to_storage, remove_file_from_storage, check_and_reserve_space, free_space,
}
use distributed_server_clien.Server.Upload.{Node, remove_partial}

-- Where a handler of an upload is.
pub data Phase : Type 0 where
  arrived : Phase  -- in front of check_and_reserve_space
  reserved : Phase  -- in front of add_file_to_storage
  not_new : Phase  -- the name was there: in front of free_space
  listed : Phase  -- the name is added: up to the opening of the file
  receiving : (to_upload : ℕ) (failed : Bool) → Phase  -- in the loop
  failing : Phase  -- in front of the removal of the file
  cleared : Phase  -- in front of free_space
  freed : Phase  -- in front of remove_file_from_storage
  over : Phase

pub record Handler : Type 0 where
  pub filename : Bytes
  pub file_size : ℕ
  pub phase : Phase

-- The name in storage is that of this handler.
abbrev pub owns : Phase → Bool
owns arrived = false
owns reserved = false
owns not_new = false
owns listed = true
owns (receiving n failed) = true
owns failing = true
owns cleared = true
owns freed = true
owns over = false

abbrev pub owned : List Handler → List Bytes
owned [] = []
owned (h ∷ hs) = if owns h.phase then h.filename ∷ owned hs else owned hs

-- `if (failed || to_upload != 0)` behind the loop.
abbrev pub after_loop : ℕ → Bool → Phase
after_loop to_upload failed = if failed || not (to_upload == 0) then failing else over

module _ (fs : FileSystem) where
  open fs use {Disk, open_out, write}

  -- A step of a handler for the file `f` of `size` bytes under `path`.
  pub data Move (path f : Bytes) (size : ℕ) (s : Storage) (d : Disk)
      : Phase → Storage → Disk → Phase → Type 0 where
    reserve :
        (check_and_reserve_space s size).1 ≡ true
        → Move path f size s d arrived (check_and_reserve_space s size).0 d reserved
    no_space :
        (check_and_reserve_space s size).1 ≡ false
        → Move path f size s d arrived (check_and_reserve_space s size).0 d over
    add :
        (add_file_to_storage s f).1 ≡ true
        → Move path f size s d reserved (add_file_to_storage s f).0 d listed
    add_old :
        (add_file_to_storage s f).1 ≡ false
        → Move path f size s d reserved (add_file_to_storage s f).0 d not_new
    give_back : Move path f size s d not_new (free_space s size) d over
    -- The listening socket or the acceptance failed.
    not_announced : Move path f size s d listed s d cleared
    -- `select` failed or timed out, or the file did not open.
    not_opened : Move path f size s d listed s d failing
    -- `failed` if `accept` failed.
    open_file :
        (failed : Bool) (d' : Disk)
        → open_out d path ≡ some d'
        → Move path f size s d listed s d' (receiving size failed)
    receive :
        (to_upload : ℕ) (failed : Bool) (bs : Bytes)
        → is_empty (take (min max_buffer_size to_upload) bs) ≡ false
        → Move path f size s d
            (receiving to_upload failed)
            s
            (write d path (take (min max_buffer_size to_upload) bs))
            (receiving (to_upload - length (take (min max_buffer_size to_upload) bs)) failed)
    -- `read` threw.
    read_failed :
        (to_upload : ℕ) (failed : Bool)
        → Move path f size s d (receiving to_upload failed) s d failing
    -- `read` returned 0.
    stop :
        (to_upload : ℕ) (failed : Bool)
        → Move path f size s d (receiving to_upload failed) s d (after_loop to_upload failed)
    remove_file :
        (d' : Disk) → remove_partial fs d path ≡ some d' → Move path f size s d failing s d' cleared
    free : Move path f size s d cleared (free_space s size) d freed
    remove_name : Move path f size s d freed (remove_file_from_storage s f).0 d over

  pub record System : Type 0 where
    pub node : Node Disk
    pub handlers : List Handler

  abbrev pub moved : Node Disk → Storage → Disk → Node Disk
  moved node s d = record { storage = s; shared_folder = node.shared_folder; disk = d }

  -- A thread starts, with a proper name; another one goes on; the loop of `run` removes a file; or
  -- the first thread of the list makes a move.
  pub data Step : System → System → Type 0 where
    start :
        (node : Node Disk) (hs : List Handler) (f : Bytes) (size : ℕ)
        → (not (is_empty f) && not (contains (b'/' ∷ []) f)) ≡ true
        → Step
            (record { node = node; handlers = hs })
            (record {
              node = node;
              handlers = record { filename = f; file_size = size; phase = arrived } ∷ hs;
            })
    switch :
        (node : Node Disk) (hs : List Handler) (h : Handler) (ks : List Handler)
        → Step
            (record { node = node; handlers = hs ++ h ∷ ks })
            (record { node = node; handlers = h ∷ hs ++ ks })
    -- The loop of `run` removes a file, of no upload under way.
    request_removal :
        (node : Node Disk) (hs : List Handler) (f : Bytes)
        → has f (owned hs) ≡ false
        → Step
            (record { node = node; handlers = hs })
            (record { node = handle_remove_request fs node f; handlers = hs })
    go :
        (node : Node Disk) (hs : List Handler) (f : Bytes) (size : ℕ) (p p' : Phase) (s : Storage)
        (d : Disk)
        → Move (node.shared_folder ++ f) f size node.storage node.disk p s d p'
        → Step
            (record {
              node = node;
              handlers = record { filename = f; file_size = size; phase = p } ∷ hs;
            })
            (record {
              node = moved node s d;
              handlers = record { filename = f; file_size = size; phase = p' } ∷ hs;
            })

  infixr 40 ◌then◌
  pub data Steps : System → System → Type 0 where
    nothing : {a : System} → Steps a a
    ◌then◌ : {a b c : System} → Step a b → Steps b c → Steps a c
