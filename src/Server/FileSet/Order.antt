-- ===== src/Server/FileSet/Order.antt =====
-- The set stays in order with no name twice.
use distributed_server_clien.Prelude.Bytes.{
  Bytes, str_eq, str_lt, str_eq_iff, str_lt_irrefl, str_lt_trans,
}
use distributed_server_clien.Prelude.{◌≡◌, refl, true, false, not, ◌&&◌, List, [], ◌∷◌, arith}
use distributed_server_clien.Server.FileSet.{has, insert, erase}

-- Every name of the list comes behind `f`.
abbrev pub AllAfter : Bytes → List Bytes → Type 0
AllAfter f [] = Unit {0}
AllAfter f (g ∷ gs) = (str_lt f g ≡ true) × AllAfter f gs

abbrev pub IsSorted : List Bytes → Type 0
IsSorted [] = Unit {0}
IsSorted (f ∷ fs) = AllAfter f fs × IsSorted fs

AllAfter-trans : (f g : Bytes) (s : List Bytes) → str_lt f g ≡ true → AllAfter g s → AllAfter f s
AllAfter-trans f g [] h a = tt
AllAfter-trans f g (k ∷ ks) h a = (str_lt_trans f g k h a.0, AllAfter-trans f g ks h a.1)

AllAfter-insert :
    (f g : Bytes) (s : List Bytes) → str_lt g f ≡ true → AllAfter g s → AllAfter g (insert f s)
unfolding insert
AllAfter-insert f g [] h a = (h, tt)
AllAfter-insert f g (k ∷ ks) h a = ground (arith, AllAfter-insert f g ks h a.1)

AllAfter-erase : (f g : Bytes) (s : List Bytes) → AllAfter g s → AllAfter g (erase f s)
unfolding erase
AllAfter-erase f g [] a = tt
AllAfter-erase f g (k ∷ ks) a = ground (arith, AllAfter-erase f g ks a.1)

pub insert-IsSorted : (f : Bytes) (s : List Bytes) → IsSorted s → IsSorted (insert f s)
unfolding insert
insert-IsSorted f [] h = (tt, tt)
insert-IsSorted f (g ∷ gs) h =
    ground (arith, insert-IsSorted f gs h.1, AllAfter-insert f g gs, AllAfter-trans f g gs)

pub erase-IsSorted : (f : Bytes) (s : List Bytes) → IsSorted s → IsSorted (erase f s)
unfolding erase
erase-IsSorted f [] h = tt
erase-IsSorted f (g ∷ gs) h = ground (arith, erase-IsSorted f gs h.1, AllAfter-erase f g gs h.0)

-- A name in front of a sorted set is not in it.
has_of_AllAfter : (f : Bytes) (s : List Bytes) → AllAfter f s → has f s ≡ false
unfolding has
has_of_AllAfter f [] a = refl
has_of_AllAfter f (g ∷ gs) a =
    ground (arith, has_of_AllAfter f gs a.1, str_eq_iff f g, str_lt_irrefl f)

pub has-erase :
    (j f : Bytes) (s : List Bytes) → IsSorted s → has j (erase f s) ≡ (not (str_eq j f) && has j s)
unfolding has erase
has-erase j f [] h = ground arith
has-erase j f (g ∷ gs) h = ground (
  arith,
  has-erase j f gs h.1,
  has_of_AllAfter g gs h.0,
  str_eq_iff f g,
  str_eq_iff j f,
  str_eq_iff j g,
)

-- A name that is there already is not put in again.
pub insert_of_has : (f : Bytes) (s : List Bytes) → IsSorted s → has f s ≡ true → insert f s ≡ s
unfolding has insert
insert_of_has f [] h k = ground arith
insert_of_has f (g ∷ gs) h k = ground (
  arith,
  insert_of_has f gs h.1,
  has_of_AllAfter f gs,
  AllAfter-trans f g gs,
  str_eq_iff f g,
  str_lt_irrefl f,
  h.0,
)
