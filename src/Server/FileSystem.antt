-- ===== src/Server/FileSystem.antt =====
-- The file system under the shared folder, as the handlers use it through boost::filesystem and the
-- file streams. It is not part of the program: the handlers take it as a parameter, and the
-- theorems take the documented behaviour as `IsLawful`, or, where the program counts on calls that it
-- does not check, as `IsReliable`. A path is a byte string.
pub mod InMemory
use mathlib.Core.Path.{subst}
use distributed_server_clien.Prelude.Bytes.{Bytes, contains, str_eq, str_eq_iff}
use distributed_server_clien.Protocol.Validation.{is_empty}
use distributed_server_clien.Prelude.{
  ℕ, Bool, true, false, Option, none, some, [], ◌∷◌, ◌++◌, ◌≡◌, not, ◌&&◌, inl, inr, Bool-cases,
  if◌then◌else◌, length,
}

pub record FileSystem : Type 1 where
  pub Disk : Type 0
  -- The bytes of a regular file, `none` if there is none at the path.
  pub content : Disk → Bytes → Option Bytes
  pub exists : Disk → Bytes → Bool
  -- `none` is the exception filesystem_error.
  pub file_size : Disk → Bytes → Option ℕ
  pub remove : Disk → Bytes → Option Disk
  -- An output stream in binary mode, which empties the file; `none` if it does not open.
  pub open_out : Disk → Bytes → Option Disk
  pub write : Disk → Bytes → Bytes → Disk

abbrev pub present : Option Bytes → Bool
present none = false
present (some bs) = true

abbrev pub size_of : Option Bytes → Option ℕ
size_of none = none
size_of (some bs) = some (length bs)

module _ (fs : FileSystem) where
  open fs use {Disk, content, exists, file_size, remove, open_out, write}

  -- What holds whichever calls fail: a regular file exists, a directory may; `remove` takes the path
  -- away, an opened stream empties its file, and each of the two and a write leaves all other paths
  -- alone. A write may fail, and then nothing is said of its file; `file_size` may throw.
  pub record IsLawful : Type 0 where
    pub exists_file : (d : Disk) (p bytes : Bytes) → content d p ≡ some bytes → exists d p ≡ true
    pub content-remove :
        (d d' : Disk) (p q : Bytes)
        → remove d p ≡ some d'
        → content d' q ≡ (if str_eq p q then none else content d q)
    pub content-open_out :
        (d d' : Disk) (p q : Bytes)
        → open_out d p ≡ some d'
        → content d' q ≡ (if str_eq p q then some [] else content d q)
    pub content-write_other :
        (d : Disk) (p q new : Bytes) → str_eq p q ≡ false → content (write d p new) q ≡ content d q

  -- A condition, and no law: every write to an open file arrives, in its order (the streams of the
  -- program are never asked), and `file_size` does not throw for a regular file.
  pub record IsReliable : Type 0 where
    pub lawful : IsLawful
    pub written :
        (d : Disk) (p old new : Bytes)
        → content d p ≡ some old
        → content (write d p new) p ≡ some (old ++ new)
    pub measured :
        (d : Disk) (p bytes : Bytes)
        → content d p ≡ some bytes
        → file_size d p ≡ some (length bytes)

  pub content-write :
      IsReliable
      → (d : Disk) (p q old new : Bytes) → content d p ≡ some old
      → content (write d p new) q ≡ (if str_eq p q then some (old ++ new) else content d q)
  content-write laws d p q old new h = elim (Bool-cases (str_eq p q)) [
    | inl same ↦ rw same (
        subst (λ (r : Bytes). content (write d p new) r ≡ some (old ++ new))
          ((str_eq_iff p q).0 same) (laws.written d p old new h))
    | inr other ↦ rw other (laws.lawful.content-write_other d p q new other)
  ]

  -- No directory stands under a proper name of an upload: what exists there can be removed.
  abbrev pub Removable : Bytes → Bytes → Type 0
  Removable folder f =
      (not (is_empty f) && not (contains (b'/' ∷ []) f)) ≡ true
      → (d : Disk) → exists d (folder ++ f) ≡ true
      → (d' : Disk) × (remove d (folder ++ f) ≡ some d')
