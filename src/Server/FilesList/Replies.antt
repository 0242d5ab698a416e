-- ===== src/Server/FilesList/Replies.antt =====
-- The replies to a search: their size, and which names they list.
use distributed_server_clien.Prelude.Bytes.{Bytes, contains}
use distributed_server_clien.Prelude.{
  ◌+◌, ◌≤◌, ◌<◌, ◌≡◌, refl, ◌∙◌, true, false, List, [], ◌∷◌, ◌++◌, append_assoc, append-nil, arith,
  ltb, if◌then◌else◌, Bool-cases, inl, inr, length, length-append,
}
use distributed_server_clien.Server.FilesList.{
  Listing, fill_message_with_filename, list_step, list_loop, reply_texts,
}

-- Every text has room in the array and in one datagram.
abbrev pub AllFit : List Bytes → Type 0
AllFit [] = Unit {0}
AllFit (t ∷ ts) = (length t ≤ 65489) × AllFit ts

AllFit-append : (xs : List Bytes) (t : Bytes) → AllFit xs → length t ≤ 65489 → AllFit (xs ++ t ∷ [])
AllFit-append [] t h k = (k, tt)
AllFit-append (x ∷ xs) t h k = (h.0, AllFit-append xs t h.1 k)

record Fits (l : Listing) : Type 0 where
  text_fits : length l.text ≤ 65489
  sent_fit : AllFit l.sent

length-fill : (t f : Bytes) → length (fill_message_with_filename t f) ≤ length t + length f + 1
unfolding fill_message_with_filename
length-fill t f = ground (
  arith,
  length-append {0} t f,
  length-append {0} t (b'\n' ∷ []),
  length-append {0} (t ++ b'\n' ∷ []) f,
)

list_step-Fits : (p : Bytes) (l : Listing) (f : Bytes) → Fits l → Fits (list_step p l f)
unfolding list_step
list_step-Fits p l f h = ground (arith, length-fill l.text f, AllFit-append l.sent l.text)

list_loop-Fits : (p : Bytes) (l : Listing) (fs : List Bytes) → Fits l → Fits (list_loop p l fs)
unfolding list_loop
list_loop-Fits p l [] h = h
list_loop-Fits p l (f ∷ fs) h = list_loop-Fits p (list_step p l f) fs (list_step-Fits p l f h)

-- However many names match and however long they are, no text of a reply to a search is longer than
-- the array `data` of a SimpleMessage.
pub reply_texts-AllFit : (pattern : Bytes) (files : List Bytes) → AllFit (reply_texts pattern files)
unfolding reply_texts
reply_texts-AllFit pattern files =
    let l = list_loop pattern (record { text = []; sent = [] }) files in
    let fits =
      list_loop-Fits pattern (record { text = []; sent = [] }) files
        (record { text_fits = omega arith; sent_fit = tt }) in
    ground (arith, fits.text_fits, fits.sent_fit, AllFit-append l.sent l.text)

-- The names that match, in order.
abbrev pub matching : Bytes → List Bytes → List Bytes
matching p [] = []
matching p (f ∷ fs) = if contains p f then f ∷ matching p fs else matching p fs

-- The names with a newline in front of each.
abbrev pub tail_text : List Bytes → Bytes
tail_text [] = []
tail_text (f ∷ fs) = b'\n' ∷ (f ++ tail_text fs)

-- The names with a newline between them.
abbrev pub join_lines : List Bytes → Bytes
join_lines [] = []
join_lines (f ∷ fs) = f ++ tail_text fs

abbrev pub NoneEmpty : List Bytes → Type 0
NoneEmpty [] = Unit {0}
NoneEmpty (f ∷ fs) = (0 < length f) × NoneEmpty fs

length-extended : (t f : Bytes) → length ((t ++ b'\n' ∷ []) ++ f) ≡ length t + 1 + length f
length-extended t f =
    omega (arith, length-append {0} (t ++ b'\n' ∷ []) f, length-append {0} t (b'\n' ∷ []))

list_step_match :
    (p t : Bytes) (sent : List Bytes) (f : Bytes)
    → contains p f ≡ true
    → 0 < length t
    → length t + length f < 65489
    → list_step p (record { text = t; sent = sent }) f
      ≡ record { text = (t ++ b'\n' ∷ []) ++ f; sent = sent }
unfolding list_step
list_step_match p t sent f m pos h = ground arith

list_step_first :
    (p : Bytes) (f : Bytes)
    → contains p f ≡ true
    → length f < 65489
    → list_step p (record { text = []; sent = [] }) f ≡ record { text = f; sent = [] }
unfolding list_step
list_step_first p f m h = ground arith

list_step_other : (p : Bytes) (l : Listing) (f : Bytes) → contains p f ≡ false → list_step p l f ≡ l
unfolding list_step
list_step_other p l f m = ground arith

list_loop-tail_text :
    (p t : Bytes) (sent fs : List Bytes)
    → 0 < length t
    → length t + length (tail_text (matching p fs)) ≤ 65489
    → list_loop p (record { text = t; sent = sent }) fs
      ≡ record { text = t ++ tail_text (matching p fs); sent = sent }
unfolding list_loop
list_loop-tail_text p t sent [] pos h = rw append-nil
list_loop-tail_text p t sent (f ∷ fs) pos h = elim (Bool-cases (contains p f)) [
  | inl m ↦
      let room = rw m at h in
      let size = length-append {0} f (tail_text (matching p fs)) in
      rw (m, list_step_match p t sent f m pos (omega (arith, room, size)))
        (list_loop-tail_text p ((t ++ b'\n' ∷ []) ++ f) sent fs (omega (arith, length-extended t f))
            (omega (arith, room, size, length-extended t f))
          ∙ simp append_assoc)
  | inr m ↦
      rw (m, list_step_other p (record { text = t; sent = sent }) f m)
        (list_loop-tail_text p t sent fs pos (rw m at h))
]

list_loop-join_lines :
    (p : Bytes) (fs : List Bytes)
    → NoneEmpty fs
    → length (join_lines (matching p fs)) < 65489
    → list_loop p (record { text = []; sent = [] }) fs
      ≡ record { text = join_lines (matching p fs); sent = [] }
unfolding list_loop
list_loop-join_lines p [] n h = refl
list_loop-join_lines p (f ∷ fs) n h = elim (Bool-cases (contains p f)) [
  | inl m ↦
      let room = rw m at h in
      let size = length-append {0} f (tail_text (matching p fs)) in
      rw (m, list_step_first p f m (omega (arith, room, size)))
        (list_loop-tail_text p f [] fs n.0 (omega (arith, room, size)))
  | inr m ↦
      rw (m, list_step_other p (record { text = []; sent = [] }) f m)
        (list_loop-join_lines p fs n.1 (rw m at h))
]

-- The texts that answer a search: one with the names, or none.
abbrev pub one_reply : List Bytes → List Bytes
one_reply [] = []
one_reply (f ∷ fs) = join_lines (f ∷ fs) ∷ []

one_reply_lem :
    (fs : List Bytes)
    → NoneEmpty fs
    → (if ltb 0 (length (join_lines fs)) then [] ++ join_lines fs ∷ [] else []) ≡ one_reply fs
one_reply_lem [] n = refl
one_reply_lem (f ∷ fs) n = ground (arith, length-append {0} f (tail_text fs))

matching-NoneEmpty : (p : Bytes) (fs : List Bytes) → NoneEmpty fs → NoneEmpty (matching p fs)
matching-NoneEmpty p [] n = tt
matching-NoneEmpty p (f ∷ fs) n = ground (arith, matching-NoneEmpty p fs n.1)

-- If no name is empty and the names that contain the pattern, with a newline between them, have
-- fewer than 65489 bytes, there is one reply with exactly these names in order, and none if no name
-- contains the pattern.
pub reply_texts-matching :
    (pattern : Bytes) (files : List Bytes)
    → NoneEmpty files
    → length (join_lines (matching pattern files)) < 65489
    → reply_texts pattern files ≡ one_reply (matching pattern files)
unfolding reply_texts
reply_texts-matching pattern files n h =
    rw (list_loop-join_lines pattern files n h)
      (one_reply_lem (matching pattern files) (matching-NoneEmpty pattern files n))

-- If two names contain the pattern, the first one is not empty and fits in a reply, and both
-- together do not, then the only reply lists the first name, and the second one is listed nowhere.
pub reply_texts_drops :
    (pattern f g : Bytes)
    → contains pattern f ≡ true
    → contains pattern g ≡ true
    → 0 < length f
    → length f < 65489
    → 65489 ≤ length f + length g
    → reply_texts pattern (f ∷ g ∷ []) ≡ f ∷ []
unfolding reply_texts list_loop list_step
reply_texts_drops pattern f g mf mg pos small large = ground arith
