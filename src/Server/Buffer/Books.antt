-- ===== src/Server/Buffer/Books.antt =====
-- The books of the server and its disk, with the texts of the requests read late.
use distributed_server_clien.Prelude.Bytes.{Bytes, c_str}
use distributed_server_clien.Prelude.{ℕ, ◌≡◌, List, [], ◌∷◌, Option, some, none}
use distributed_server_clien.Server.FileSystem.{FileSystem, IsReliable, Removable}
use distributed_server_clien.Server.Request.{Request}
use distributed_server_clien.Server.Storage.{Storage}
use distributed_server_clien.Server.Buffer.Late.{taken}
use distributed_server_clien.Server.Upload.{Node}
use distributed_server_clien.Server.Consistency.{IsConsistent}
use distributed_server_clien.Server.Buffer.{
  Buffer, Action, skip, call, spawn, Answer, System, Turn, receive, begin,
}

-- No directory stands under the text of a datagram, if it is a proper name.
abbrev pub TextsRemovable : FileSystem → Bytes → List Turn → Type 0
TextsRemovable fs folder [] = Unit {0}
TextsRemovable fs folder (receive net none ∷ ts) = TextsRemovable fs folder ts
TextsRemovable fs folder (receive net (some (datagram, source_address)) ∷ ts) =
    Removable fs folder (c_str (taken datagram source_address).message.text)
    × TextsRemovable fs folder ts
TextsRemovable fs folder (begin net k ∷ ts) = TextsRemovable fs folder ts

-- The request of an action that the loop handles itself.
abbrev request_of : Action → List Request
request_of skip = []
request_of (call r) = r ∷ []
request_of (spawn t) = []

module _ (fs : FileSystem) (laws : IsReliable fs) (limit : ℕ) (folder : Bytes) where
  open fs use {Disk}

  -- An outcome comes to a consistent node, in the same folder.
  abbrev Keeps : Option (Node Disk × List Answer) → Type 0
  Keeps o =
      (node : Node Disk) × (answers : List Answer) × (o ≡ some (node, answers))
      × IsConsistent fs limit node
      × (node.shared_folder ≡ folder)

  -- The same of a system whose variables hold the text of `b`.
  abbrev KeepsSystem : Buffer → Option (System fs × List Answer) → Type 0
  KeepsSystem b o =
      (s : System fs) × (answers : List Answer) × (o ≡ some (s, answers))
      × IsConsistent fs limit s.node
      × (s.node.shared_folder ≡ folder)
      × (s.buffer ≡ b)

  -- What is left of a play.
  abbrev Ends : Option (System fs × List Answer) → Type 0
  Ends o =
      (s : System fs) × (answers : List Answer) × (o ≡ some (s, answers))
      × IsConsistent fs limit s.node
