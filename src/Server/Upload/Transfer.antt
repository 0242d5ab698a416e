-- ===== src/Server/Upload/Transfer.antt =====
-- The bytes of an upload: what the loop writes, and how many bytes it leaves.
use distributed_server_clien.Prelude.Bytes.{Bytes, str_eq_refl, str_eq_ne}
use distributed_server_clien.Prelude.{
  ℕ, ◌+◌, ◌-◌, ◌≤◌, ◌<◌, ◌≡◌, ◌≢◌, refl, ap, ◌∙◌, Bool, true, false, List, [], ◌∷◌, ◌++◌, Option,
  none, some, inl, inr, append-nil, append_assoc, map, arith, ◌==◌, Bool-cases, Option-cases,
  length, take, min, length-append, length-take, take_of_length-le,
}
use distributed_server_clien.Protocol.{max_buffer_size}
use distributed_server_clien.Protocol.Validation.{is_empty}
use distributed_server_clien.Server.FileSystem.{FileSystem, IsReliable, content-write}
use distributed_server_clien.Server.Upload.{
  UploadNet, Transferred, receive_loop, receive_file, transfer,
}

-- Chunks as a well-behaved peer sends them: none is empty or larger than the buffer.
abbrev pub AreChunks : List Bytes → Type 0
AreChunks [] = Unit {0}
AreChunks (c ∷ cs) = (0 < length c) × (length c ≤ max_buffer_size) × AreChunks cs

abbrev pub join_chunks : List Bytes → Bytes
join_chunks [] = []
join_chunks (c ∷ cs) = c ++ join_chunks cs

pub is_empty_of_pos : (c : Bytes) → 0 < length c → is_empty c ≡ false
unfolding is_empty
is_empty_of_pos [] h = absurd (omega arith)
is_empty_of_pos (b ∷ bs) h = refl

module _ (fs : FileSystem) (laws : IsReliable fs) (path : Bytes) where
  open fs use {Disk, content, open_out, write}

  -- Some bytes went to the file behind `old`, and they are what is no longer to come.
  record Wrote (old : Bytes) (n : ℕ) (r : Transferred Disk) : Type 0 where
    got : Bytes
    stored : content r.disk path ≡ some (old ++ got)
    counted : length got + r.to_upload ≡ n

  pub content-write_self :
      (d : Disk) (old new : Bytes)
      → content d path ≡ some old
      → content (write d path new) path ≡ some (old ++ new)
  content-write_self d old new h =
      rw (content-write fs laws d path path old new h) (rw (str_eq_refl path))

  Wrote-nothing :
      (failed : Bool) (d : Disk) (old : Bytes) (n : ℕ)
      → content d path ≡ some old
      → Wrote old n (record { failed = failed; to_upload = n; disk = d })
  Wrote-nothing failed d old n h = record {
    got = [];
    stored = rw append-nil h;
    counted = omega arith;
  }

  receive_loop-Wrote :
      (reads : List (Option Bytes)) (n : ℕ) (d : Disk) (old : Bytes)
      → content d path ≡ some old
      → Wrote old n (receive_loop fs path n d reads)
  unfolding receive_loop
  receive_loop-Wrote [] n d old h = Wrote-nothing false d old n h
  receive_loop-Wrote (none ∷ reads) n d old h = Wrote-nothing true d old n h
  receive_loop-Wrote (some bs ∷ reads) n d old h =
      let new = take (min max_buffer_size n) bs in
      let w =
        receive_loop-Wrote reads (n - length new) (write d path new) (old ++ new)
          (content-write_self d old new h) in
      elim (Bool-cases (is_empty new)) [
        | inl over ↦ rw over (Wrote-nothing false d old n h)
        | inr more ↦ rw more (record {
          got = new ++ w.got;
          stored = w.stored ∙ ap some (append_assoc old new w.got);
          counted = omega (
            arith,
            w.counted,
            length-append {0} new w.got,
            length-take {0} (min max_buffer_size n) bs,
          );
        })
      ]

  -- Another file is left alone.
  receive_loop-other :
      (reads : List (Option Bytes)) (n : ℕ) (d : Disk) (old q : Bytes)
      → path ≢ q
      → content d path ≡ some old
      → content (receive_loop fs path n d reads).disk q ≡ content d q
  unfolding receive_loop
  receive_loop-other [] n d old q ne h = refl
  receive_loop-other (none ∷ reads) n d old q ne h = refl
  receive_loop-other (some bs ∷ reads) n d old q ne h =
      let new = take (min max_buffer_size n) bs in
      let rest =
        receive_loop-other reads (n - length new) (write d path new) (old ++ new) q ne
          (content-write_self d old new h) in
      elim (Bool-cases (is_empty new)) [
        | inl over ↦ rw over
        | inr more ↦
            rw more (rest ∙ content-write fs laws d path q old new h ∙ rw (str_eq_ne path q ne))
      ]

  pub content-open_out_self : (d d' : Disk) → open_out d path ≡ some d' → content d' path ≡ some []
  content-open_out_self d d' h =
      rw (laws.lawful.content-open_out d d' path path h) (rw (str_eq_refl path))

  -- What a transfer may do: a success stores as many bytes as announced, and no transfer touches
  -- another file.
  pub record IsSound (size : ℕ) (d : Disk) (r : Transferred Disk) : Type 0 where
    pub whole :
        r.failed ≡ false
        → r.to_upload ≡ 0
        → (got : Bytes) × (content r.disk path ≡ some got) × (length got ≡ size)
    pub others : (q : Bytes) → path ≢ q → content r.disk q ≡ content d q

  failed-IsSound :
      (size left : ℕ) (d : Disk)
      → IsSound size d (record { failed = true; to_upload = left; disk = d })
  failed-IsSound size left d = record { whole = λ h k. absurd (cc h); others = λ q ne. refl }

  receive_file-IsSound :
      (accept : Bool) (reads : List (Option Bytes)) (size : ℕ) (d : Disk)
      → IsSound size d (receive_file fs accept reads path size d)
  unfolding receive_file
  receive_file-IsSound accept reads size d = elim (Option-cases (open_out d path)) [
    | inl e ↦ rw (e, receive_file) (failed-IsSound size size d)
    | inr (d', e) ↦
        let opened = content-open_out_self d d' e in
        let w = receive_loop-Wrote reads size d' [] opened in
        rw (e, receive_file)
          (record {
            whole = λ h k. (w.got, w.stored, omega (arith, w.counted));
            others = λ q ne.
                receive_loop-other reads size d' [] q ne opened
                ∙ laws.lawful.content-open_out d d' path q e
                ∙ rw (str_eq_ne path q ne);
          })
  ]

  pub transfer-IsSound :
      (net : UploadNet) (size : ℕ) (d : Disk) → IsSound size d (transfer fs net path size d)
  unfolding transfer
  transfer-IsSound net size d = elim (Option-cases net.select) [
    | inl e ↦ rw (e, transfer) (failed-IsSound size size d)
    | inr (res, e) ↦ elim (Bool-cases (res == 0)) [
      | inl z ↦ rw (e, transfer, z) (failed-IsSound size size d)
      | inr nz ↦ rw (e, transfer, nz) (receive_file-IsSound net.accept net.reads size d)
    ]
  ]

  pub receive_loop-join_chunks :
      (cs : List Bytes) (n : ℕ) (d : Disk) (old : Bytes)
      → AreChunks cs
      → n ≡ length (join_chunks cs)
      → content d path ≡ some old
      → let r = receive_loop fs path n d (map some cs) in
        (r.failed ≡ false)
        × (r.to_upload ≡ 0)
        × (content r.disk path ≡ some (old ++ join_chunks cs))
  unfolding receive_loop
  receive_loop-join_chunks [] n d old h e k = (refl, e, rw append-nil k)
  receive_loop-join_chunks (c ∷ cs) n d old (pos, small, h) e k =
      let size = length-append {0} c (join_chunks cs) in
      let all = take_of_length-le (min max_buffer_size n) c (omega (arith, size)) in
      let rest =
        receive_loop-join_chunks cs (n - length c) (write d path c) (old ++ c) h
          (omega (arith, size)) (content-write_self d old c k) in
      rw (all, is_empty_of_pos c pos)
        (rest.0, rest.1, rest.2 ∙ ap some (append_assoc old c (join_chunks cs)))
