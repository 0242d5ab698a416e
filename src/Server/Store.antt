-- ===== src/Server/Store.antt =====
-- What a server promises of its files, with no set, no counter and no disk: a store is a function
-- from names to contents, and each request may change it in one way only.
pub mod Views
use distributed_server_clien.Prelude.Bytes.{Bytes, str_eq}
use distributed_server_clien.Prelude.{
  ℕ, ◌≡◌, List, [], ◌∷◌, Option, none, some, if◌then◌else◌, length,
}
use distributed_server_clien.Server.Request.{Request, upload, discover, files_list, fetch, remove}

abbrev pub Store : Type 0
Store = Bytes → Option Bytes

abbrev pub put : Store → Bytes → Option Bytes → Store
put s f c g = if str_eq f g then c else s g

-- An upload may fail, and may store as many bytes as it announced under a name that is new; a
-- removal cannot fail; no other request changes anything.
pub data StoreStep : Store → Request → Store → Type 0 where
  uploaded :
      {s s' : Store} {seq : ℕ} {f : Bytes} {size : ℕ} (bytes : Bytes)
      → s f ≡ none
      → length bytes ≡ size
      → s' ≡ put s f (some bytes)
      → StoreStep s (upload seq f size) s'
  not_uploaded :
      {s s' : Store} {seq : ℕ} {f : Bytes} {size : ℕ} → s' ≡ s → StoreStep s (upload seq f size) s'
  removed : {s s' : Store} {f : Bytes} → s' ≡ put s f none → StoreStep s (remove f) s'
  discovered : {s : Store} {seq : ℕ} → StoreStep s (discover seq) s
  listed : {s : Store} {seq : ℕ} {pattern : Bytes} → StoreStep s (files_list seq pattern) s
  fetched : {s : Store} {seq : ℕ} {f : Bytes} → StoreStep s (fetch seq f) s

-- The changes that some requests make one after the other.
infixr 40 ◌then◌
pub data StoreSteps : Store → List Request → Store → Type 0 where
  nothing : {s : Store} → StoreSteps s [] s
  ◌then◌ :
      {s s' s'' : Store} {r : Request} {rs : List Request}
      → StoreStep s r s'
      → StoreSteps s' rs s''
      → StoreSteps s (r ∷ rs) s''
