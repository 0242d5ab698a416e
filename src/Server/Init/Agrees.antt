-- ===== src/Server/Init/Agrees.antt =====
-- A server that runs starts with books that agree with its folder.
use mathlib.Core.Path.{subst}
use distributed_server_clien.Prelude.Bytes.{Bytes}
use distributed_server_clien.Prelude.{
  ℕ, ◌^◌, ◌≤◌, ◌<◌, ◌≡◌, refl, sym, ◌∙◌, Bool, true, false, List, [], ◌∷◌, ◌++◌, ◌==◌, Option, none,
  some, Bool-cases, Option-cases, inl, inr,
}
use distributed_server_clien.Options.{
  with_slash, ServerOptions, ServerConfiguration, configured, parse_server_arguments,
}
use distributed_server_clien.Options.Bounds.{Parsed-cases}
use distributed_server_clien.Server.FileSystem.{FileSystem}
use distributed_server_clien.Server.Storage.{
  Storage, Entry, Started, no_folder, not_a_directory, started, generate_files_in_storage,
}
use distributed_server_clien.Server.Storage.Start.{regular_size}
use distributed_server_clien.Server.Upload.{Node}
use distributed_server_clien.Server.Consistency.{contents, IsConsistent}
use distributed_server_clien.Server.Consistency.Start.{Lists, generate_files_in_storage-Agree}
use distributed_server_clien.Server.Init.{
  World, construct, init_sockets, create_folder, started_node, fill_storage, init, runs, boot_of,
  main,
}

started_node-some :
    {Disk : Type 0} (w : World Disk) (node node' : Node Disk) (r : Started)
    → started_node w node r ≡ some node'
    → (s : Storage) × (r ≡ started s) × (node' ≡ record node { storage = s })
started_node-some w node node' no_folder h = absurd (cc h)
started_node-some w node node' not_a_directory h = absurd (cc h)
started_node-some w node node' (started s) h = elim (Bool-cases (init_sockets w.calls [])) [
  | inl up ↦ (s, refl, cc (rw up at h))
  | inr down ↦ absurd (cc (rw down at h))
]

started_same : (s s' : Storage) → started s ≡ started s' → s ≡ s'
started_same s s' e = cc e

generate_files_in_storage_is_directory :
    (exists is_directory : Bool) (es : List Entry) (s s' : Storage)
    → generate_files_in_storage exists is_directory es s ≡ started s'
    → generate_files_in_storage true true es s ≡ started s'
unfolding generate_files_in_storage
generate_files_in_storage_is_directory true true es s s' h = h
generate_files_in_storage_is_directory true false es s s' h = absurd (cc h)
generate_files_in_storage_is_directory false d es s s' h = absurd (cc h)

boot_of-runs :
    {Disk : Type 0} (o : Option (Node Disk)) (node : Node Disk)
    → boot_of o ≡ runs node
    → o ≡ some node
boot_of-runs none node h = absurd (cc h)
boot_of-runs (some n) node h = cc h

with_slash_lem :
    (before : ℕ) (path : Bytes)
    → (before == b'/') ≡ false
    → with_slash before path ≡ path ++ b'/' ∷ []
unfolding with_slash
with_slash_lem before path other = rw other refl

module _ (fs : FileSystem) (limit : ℕ) (word : limit < 2 ^ 64) (w : World fs.Disk)
    (lists : (d : fs.Disk) (path : Bytes)
      → create_folder w (path ++ b'/' ∷ []) ≡ some d
      → Lists (λ f. fs.content d ((path ++ b'/' ∷ []) ++ f)) (w.entries d (path ++ b'/' ∷ [])))
    (sizes : (d : fs.Disk) (folder : Bytes)
      → create_folder w folder ≡ some d
      → regular_size (w.entries d folder) ≤ limit) where
  fill_storage-IsConsistent :
      (path : Bytes) (node node' : Node fs.Disk)
      → node.shared_folder ≡ path ++ b'/' ∷ []
      → node.storage.files_in_storage ≡ []
      → node.storage.used_space ≡ 0
      → node.storage.max_available_space ≤ limit
      → create_folder w node.shared_folder ≡ some node.disk
      → fill_storage w node ≡ some node'
      → IsConsistent fs limit node'
  unfolding fill_storage
  fill_storage-IsConsistent path node node' slash empty unused room made h =
      let entries = w.entries node.disk node.shared_folder in
      let exists = w.exists node.disk node.shared_folder in
      let is_directory = w.is_directory node.disk node.shared_folder in
      let (s, found, same) =
        started_node-some w node node'
          (generate_files_in_storage exists is_directory entries node.storage) h in
      let (s', found', agree) =
        generate_files_in_storage-Agree limit (contents fs node) node.storage entries empty unused
          room (sizes node.disk node.shared_folder made) word
          (subst (λ (p : Bytes). Lists (λ f. fs.content node.disk (p ++ f)) (w.entries node.disk p))
            (sym slash)
            (lists node.disk path
              (subst (λ (p : Bytes). create_folder w p ≡ some node.disk) slash made))) in
      let found'' =
        generate_files_in_storage_is_directory exists is_directory entries node.storage s found in
      rw (same, started_same s s' (sym found'' ∙ found')) agree

  init-IsConsistent :
      (before : ℕ) (c : ServerConfiguration) (node : Node fs.Disk)
      → (before == b'/') ≡ false
      → c.max_space ≤ limit
      → init w (construct before c w.disk) ≡ some node
      → IsConsistent fs limit node
  unfolding init construct
  init-IsConsistent before c node other room h =
      elim (Option-cases (create_folder w (with_slash before c.shared_folder))) [
        | inl none_made ↦ absurd (cc (rw (none_made, init) at h))
        | inr (disk, made) ↦
            fill_storage-IsConsistent c.shared_folder
              (record (construct before c w.disk) { disk = disk }) node
              (with_slash_lem before c.shared_folder other) refl refl room made
              (rw (made, init) at h)
      ]

  -- If `main` of the server comes to `run`, the names in storage are sorted and are files of the
  -- shared folder, and the counter is the size of these files and is, like `max_available_space`,
  -- at most a limit of 64 bits. The conditions are that the byte in front of the configured path,
  -- which the test for a closing slash reads, is no slash, that in whatever folder, written with a
  -- slash behind it, is made or found at the start, a listing shows each name once and each regular
  -- file with its size, that the sizes of the regular files are within the limit together, and that
  -- so is the configured space.
  pub main-IsConsistent :
      (given : Option ServerOptions) (before : ℕ) (node : Node fs.Disk)
      → (before == b'/') ≡ false
      → ((c : ServerConfiguration)
          → parse_server_arguments given ≡ configured c
          → c.max_space ≤ limit)
      → main given before w ≡ runs node
      → IsConsistent fs limit node
  unfolding main
  main-IsConsistent given before node other room h =
      elim (Parsed-cases (parse_server_arguments given)) [
        | inl (code, e) ↦ absurd (cc (rw (e, main) at h))
        | inr (c, e) ↦
            init-IsConsistent before c node other (room c e)
              (boot_of-runs _ node (rw (e, main) at h))
      ]
