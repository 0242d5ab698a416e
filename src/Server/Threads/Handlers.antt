-- ===== src/Server/Threads/Handlers.antt =====
-- What the handlers of uploads own: names, space, and what is in their files.
use distributed_server_clien.Prelude.Bytes.{Bytes}
use distributed_server_clien.Prelude.{
  ℕ, ◌+◌, ◌≡◌, ◌≢◌, ◌∙◌, refl, ap, Bool, true, false, List, [], ◌∷◌, ◌++◌, some, if◌then◌else◌,
  length, arith, Bool-cases, inl, inr,
}
use distributed_server_clien.Server.FileSystem.{FileSystem}
use distributed_server_clien.Server.Upload.{Node}
use distributed_server_clien.Server.FileSet.{has, erase}
use distributed_server_clien.Server.Storage.{Storage}
use distributed_server_clien.Server.Consistency.{contents, Contents}
use distributed_server_clien.Server.Threads.Owners.{Owners}
use distributed_server_clien.Server.Threads.Ledger.{Books, front-Books}
use distributed_server_clien.Server.Threads.{
  owns, owned, Phase, arrived, reserved, not_new, listed, receiving, failing, cleared, freed, over,
  Handler, ◌then◌,
}

-- The size is reserved for this handler.
abbrev pub holds : Phase → Bool
holds arrived = false
holds reserved = true
holds not_new = true
holds listed = true
holds (receiving n failed) = true
holds failing = true
holds cleared = true
holds freed = false
holds over = false

abbrev pub pending : List Handler → ℕ
pending [] = 0
pending (h ∷ hs) = if holds h.phase then h.file_size + pending hs else pending hs

-- In the loop, the file has what has been received.
abbrev pub Received : Contents → Bytes → ℕ → Phase → Type 0
Received c f size arrived = Unit {0}
Received c f size reserved = Unit {0}
Received c f size not_new = Unit {0}
Received c f size listed = Unit {0}
Received c f size (receiving n failed) = (bs : Bytes) × (c f ≡ some bs) × (length bs + n ≡ size)
Received c f size failing = Unit {0}
Received c f size cleared = Unit {0}
Received c f size freed = Unit {0}
Received c f size over = Unit {0}

abbrev pub AllReceived : Contents → List Handler → Type 0
AllReceived c [] = Unit {0}
AllReceived c (h ∷ hs) = Received c h.filename h.file_size h.phase × AllReceived c hs

owned-append : (hs ks : List Handler) → owned (hs ++ ks) ≡ owned hs ++ owned ks
owned-append [] ks = refl
owned-append (h ∷ hs) ks = elim (Bool-cases (owns h.phase)) [
  | inl own ↦ rw own (ap (λ os. h.filename ∷ os) (owned-append hs ks))
  | inr none_own ↦ rw none_own (owned-append hs ks)
]

pub owned_front :
    (limit : ℕ) (s : Storage) (c : Contents) (pend : ℕ) (hs : List Handler) (h : Handler)
    (ks : List Handler)
    → Books limit s c (owned (hs ++ h ∷ ks)) pend
    → Books limit s c (owned (h ∷ hs ++ ks)) pend
owned_front limit s c pend hs h ks b =
    let before = rw (owned-append hs (h ∷ ks)) at b in
    elim (Bool-cases (owns h.phase)) [
      | inl own ↦
          rw (own, owned-append hs ks)
            (front-Books h.filename (owned hs) (owned ks) (rw own at before))
      | inr none_own ↦ rw (none_own, owned-append hs ks) (rw none_own at before)
    ]

pub pending_front :
    (hs : List Handler) (h : Handler) (ks : List Handler)
    → pending (hs ++ h ∷ ks) ≡ pending (h ∷ hs ++ ks)
pending_front [] h ks = refl
pending_front (g ∷ hs) h ks = ground (arith, pending_front hs h ks)

pub AllReceived_front :
    (c : Contents) (hs : List Handler) (h : Handler) (ks : List Handler)
    → AllReceived c (hs ++ h ∷ ks)
    → AllReceived c (h ∷ hs ++ ks)
AllReceived_front c [] h ks r = r
AllReceived_front c (g ∷ hs) h ks (first, rest) =
    let (mine, others) = AllReceived_front c hs h ks rest in (mine, (first, others))

module _ (c c' : Contents) (f : Bytes) (same : (g : Bytes) → f ≢ g → c' g ≡ c g) where
  Received_other :
      (g : Bytes) (size : ℕ) (p : Phase)
      → (owns p ≡ true → f ≢ g)
      → Received c g size p
      → Received c' g size p
  Received_other g size arrived ne r = tt
  Received_other g size reserved ne r = tt
  Received_other g size not_new ne r = tt
  Received_other g size listed ne r = tt
  Received_other g size (receiving n failed) ne (bs, there, rest) =
      (bs, same g (ne refl) ∙ there, rest)
  Received_other g size failing ne r = tt
  Received_other g size cleared ne r = tt
  Received_other g size freed ne r = tt
  Received_other g size over ne r = tt

  apart : (g : Bytes) (names : List Bytes) → has f names ≡ false → has g names ≡ true → f ≢ g
  apart g names h k e = absurd (cc (h, k, e))

  not-has_again :
      (g : Bytes) (names : List Bytes) → has f names ≡ false → has f (erase g names) ≡ false
  unfolding has erase
  not-has_again g [] h = refl
  not-has_again g (k ∷ ks) h = ground (arith, not-has_again g ks)

  -- What one handler does to its file is nothing to the others.
  pub AllReceived_other :
      (hs : List Handler) (names : List Bytes)
      → has f names ≡ false
      → Owners names (owned hs)
      → AllReceived c hs
      → AllReceived c' hs
  AllReceived_other [] names new o r = tt
  AllReceived_other (h ∷ hs) names new o (r, rs) = elim (Bool-cases (owns h.phase)) [
    | inl own ↦
        let (there, rest) = rw own at o in
        (
          Received_other h.filename h.file_size h.phase (λ e. apart h.filename names new there) r,
          AllReceived_other hs (erase h.filename names) (not-has_again h.filename names new) rest
              rs,
        )
    | inr none_own ↦ (
      Received_other h.filename h.file_size h.phase (λ e. absurd (cc (e, none_own))) r,
      AllReceived_other hs names new (rw none_own at o) rs,
    )
  ]

-- The books of the server, while these handlers run.
pub record Sound (fs : FileSystem) (limit : ℕ) (node : Node fs.Disk) (hs : List Handler)
    : Type 0 where
  pub books : Books limit node.storage (contents fs node) (owned hs) (pending hs)
  pub received : AllReceived (contents fs node) hs
