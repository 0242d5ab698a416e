-- ===== src/Server/Consistency/Sizes.antt =====
-- Sizes of files under a set of names.
use distributed_server_clien.Prelude.Bytes.{Bytes, str_eq_iff, str_lt_total}
use distributed_server_clien.Prelude.{◌+◌, ◌≡◌, ◌≢◌, refl, true, false, List, [], ◌∷◌, ◌++◌, arith}
use distributed_server_clien.Server.FileSystem.{present}
use distributed_server_clien.Server.FileSet.{has, insert, erase}
use distributed_server_clien.Server.Consistency.{Contents, byte_count, total, AllPresent}

module _ (c c' : Contents) (f : Bytes) (same : (g : Bytes) → f ≢ g → c' g ≡ c g) where
  ne_of_not-has : (g : Bytes) (gs : List Bytes) → has f (g ∷ gs) ≡ false → f ≢ g
  unfolding has
  ne_of_not-has g gs h e = ground (arith, str_eq_iff f g)

  not-has_tail : (g : Bytes) (gs : List Bytes) → has f (g ∷ gs) ≡ false → has f gs ≡ false
  unfolding has
  not-has_tail g gs h = ground arith

  -- Files that are not under one of the names do not count.
  pub total_of_not-has : (gs : List Bytes) → has f gs ≡ false → total c' gs ≡ total c gs
  total_of_not-has [] h = refl
  total_of_not-has (g ∷ gs) h =
      rw (same g (ne_of_not-has g gs h)) (omega (arith, total_of_not-has gs (not-has_tail g gs h)))

  pub AllPresent-of_not-has :
      (gs : List Bytes) → has f gs ≡ false → AllPresent c gs → AllPresent c' gs
  AllPresent-of_not-has [] h a = tt
  AllPresent-of_not-has (g ∷ gs) h a =
      (rw (same g (ne_of_not-has g gs h)) a.0, AllPresent-of_not-has gs (not-has_tail g gs h) a.1)

module _ (c : Contents) (f : Bytes) where
  pub total-insert :
      (gs : List Bytes) → has f gs ≡ false → total c (insert f gs) ≡ byte_count (c f) + total c gs
  unfolding has insert
  total-insert [] h = refl
  total-insert (g ∷ gs) h = ground (arith, total-insert gs, str_lt_total f g, str_eq_iff f g)

  pub AllPresent-insert :
      (gs : List Bytes) → present (c f) ≡ true → AllPresent c gs → AllPresent c (insert f gs)
  unfolding insert
  AllPresent-insert [] p a = (p, tt)
  AllPresent-insert (g ∷ gs) p a = ground (arith, AllPresent-insert gs)

  pub total-erase :
      (gs : List Bytes) → has f gs ≡ true → byte_count (c f) + total c (erase f gs) ≡ total c gs
  unfolding has erase
  total-erase [] h = ground arith
  total-erase (g ∷ gs) h = ground (arith, total-erase gs, str_eq_iff f g)

  pub AllPresent-erase : (gs : List Bytes) → AllPresent c gs → AllPresent c (erase f gs)
  unfolding erase
  AllPresent-erase [] a = tt
  AllPresent-erase (g ∷ gs) a = ground (arith, AllPresent-erase gs)

  pub present_of_has : (gs : List Bytes) → AllPresent c gs → has f gs ≡ true → present (c f) ≡ true
  unfolding has
  present_of_has [] a h = absurd (cc h)
  present_of_has (g ∷ gs) a h = ground (arith, present_of_has gs a.1, str_eq_iff f g)

-- The path of another name is another path.
pub append-ne : (folder f g : Bytes) → f ≢ g → folder ++ f ≢ folder ++ g
append-ne [] f g ne e = ne e
append-ne (b ∷ folder) f g ne e = append-ne folder f g ne (cc e)
