-- ===== src/Server/Threads/Sound.antt =====
-- What the threads of the uploads keep, in whatever order they run.
use distributed_server_clien.Prelude.{ℕ, ◌≡◌, refl, List, [], ◌∷◌, if◌then◌else◌}
use distributed_server_clien.Server.FileSystem.{FileSystem, IsReliable}
use distributed_server_clien.Server.Upload.{Node}
use distributed_server_clien.Server.Consistency.{contents, IsConsistent}
use distributed_server_clien.Server.Threads.Ledger.{Books-Agree, Books-of_Agree}
use distributed_server_clien.Server.Threads.Moves.{Move-Parts}
use distributed_server_clien.Server.Threads.Removal.{handle_remove_request-Sound}
use distributed_server_clien.Server.Threads.Handlers.{
  Sound, pending, owned_front, pending_front, AllReceived_front,
}
use distributed_server_clien.Server.Threads.{
  owned, request_removal, over, Handler, System, Step, start, switch, go, Steps, nothing, ◌then◌,
}

module _ (fs : FileSystem) (laws : IsReliable fs) (limit : ℕ) where
  Step-Sound :
      {a b : System fs}
      → Step fs a b
      → Sound fs limit a.node a.handlers
      → Sound fs limit b.node b.handlers
  Step-Sound (start node hs f size proper) i = record {
    books = i.books;
    received = (tt, i.received);
  }
  Step-Sound (switch node hs h ks) i = record {
    books =
        owned_front limit node.storage (contents fs node) _ hs h ks
          (rw (pending_front hs h ks) at i.books);
    received = AllReceived_front (contents fs node) hs h ks i.received;
  }
  Step-Sound (request_removal node hs f other) i =
      handle_remove_request-Sound fs laws limit node hs f i other
  Step-Sound (go node hs f size p p' s d move) i =
      let moved_on =
        Move-Parts fs laws limit node.shared_folder f size node.storage node.disk hs p p' s d move
          (record { books = i.books; received = i.received }) in
      record { books = moved_on.books; received = moved_on.received }

  pub Steps-Sound :
      {a b : System fs}
      → Steps fs a b
      → Sound fs limit a.node a.handlers
      → Sound fs limit b.node b.handlers
  Steps-Sound nothing i = i
  Steps-Sound (step then steps) i = Steps-Sound steps (Step-Sound step i)

-- Every handler has come to its end.
abbrev pub AllOver : List Handler → Type 0
AllOver [] = Unit {0}
AllOver (h ∷ hs) = (h.phase ≡ over) × AllOver hs

owned_over : (hs : List Handler) → AllOver hs → owned hs ≡ []
owned_over [] o = refl
owned_over (h ∷ hs) (o, os) = rw o (owned_over hs os)

pending_over : (hs : List Handler) → AllOver hs → pending hs ≡ 0
pending_over [] o = refl
pending_over (h ∷ hs) (o, os) = rw o (pending_over hs os)

-- Any number of uploads whose threads start at any time and take their steps in any order, whatever
-- the sockets do, whichever files do not open and whichever removals fail, short of an exception
-- that ends the program: if the names, the counter and the files of the node agree before the first
-- one starts, then they agree when all threads have come to their end. Removals may come in
-- between, each run at once and for a name of no upload that is under way. The condition is a
-- reliable file system (every write to an open file arrives, and the size of a file can be read).
pub Steps-IsConsistent :
    (fs : FileSystem) (laws : IsReliable fs) (limit : ℕ) (node : Node fs.Disk) (b : System fs)
    → Steps fs (record { node = node; handlers = [] }) b
    → IsConsistent fs limit node
    → AllOver b.handlers
    → IsConsistent fs limit b.node
Steps-IsConsistent fs laws limit node b steps ok ends =
    let start_sound : Sound fs limit node [] = record {
      books = Books-of_Agree limit node.storage (contents fs node) ok;
      received = tt;
    } in
    let sound = Steps-Sound fs laws limit steps start_sound in
    Books-Agree limit b.node.storage (contents fs b.node)
      (rw (pending_over b.handlers ends) at (rw (owned_over b.handlers ends) at sound.books))
