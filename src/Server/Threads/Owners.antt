-- ===== src/Server/Threads/Owners.antt =====
-- The names of the uploads under way, in the set of the server.
use distributed_server_clien.Prelude.Bytes.{Bytes, str_eq_iff, str_eq_refl}
use distributed_server_clien.Prelude.{◌≡◌, ◌∙◌, refl, ap, true, false, List, [], ◌∷◌, ◌++◌, arith}
use distributed_server_clien.Server.FileSystem.{present}
use distributed_server_clien.Server.FileSet.{has, erase}
use distributed_server_clien.Server.FileSet.Order.{IsSorted, has-erase}
use distributed_server_clien.Server.Consistency.{Contents, AllPresent}

-- The names but for those of the uploads.
abbrev pub erase_all : List Bytes → List Bytes → List Bytes
erase_all [] names = names
erase_all (f ∷ os) names = erase_all os (erase f names)

-- Each upload has its name in the set, and no two have the same.
abbrev pub Owners : List Bytes → List Bytes → Type 0
Owners names [] = Unit {0}
Owners names (f ∷ os) = (has f names ≡ true) × Owners (erase f names) os

pub erase-erase : (f g : Bytes) (s : List Bytes) → erase f (erase g s) ≡ erase g (erase f s)
unfolding erase
erase-erase f g [] = refl
erase-erase f g (h ∷ hs) = ground (arith, erase-erase f g hs, str_eq_iff f h, str_eq_iff g h)

has_of_erase : (f g : Bytes) (s : List Bytes) → has f (erase g s) ≡ true → has f s ≡ true
unfolding has erase
has_of_erase f g [] h = h
has_of_erase f g (k ∷ ks) h = ground (arith, has_of_erase f g ks)

has_after_swap :
    (f g : Bytes) (s : List Bytes)
    → has g s ≡ true
    → has f (erase g s) ≡ true
    → has g (erase f s) ≡ true
unfolding has erase
has_after_swap f g [] h k = h
has_after_swap f g (x ∷ xs) h k =
    ground (arith, has_after_swap f g xs, str_eq_iff f x, str_eq_iff g x, has_of_erase f g xs)

pub erase_all-erase :
    (f : Bytes) (os names : List Bytes)
    → erase_all os (erase f names) ≡ erase f (erase_all os names)
erase_all-erase f [] names = refl
erase_all-erase f (g ∷ os) names =
    ap (erase_all os) (erase-erase g f names) ∙ erase_all-erase f os (erase g names)

pub erase_all-append :
    (os us names : List Bytes) → erase_all (os ++ us) names ≡ erase_all us (erase_all os names)
erase_all-append [] us names = refl
erase_all-append (g ∷ os) us names = erase_all-append os us (erase g names)

-- The order of the uploads does not matter.
pub erase_all_front :
    (f : Bytes) (os us names : List Bytes)
    → erase_all (os ++ f ∷ us) names ≡ erase_all (f ∷ os ++ us) names
erase_all_front f [] us names = refl
erase_all_front f (g ∷ os) us names =
    erase_all_front f os us (erase g names) ∙ ap (erase_all (os ++ us)) (erase-erase f g names)

pub Owners-front :
    (f : Bytes) (os us names : List Bytes)
    → Owners names (os ++ f ∷ us)
    → Owners names (f ∷ os ++ us)
Owners-front f [] us names h = h
Owners-front f (g ∷ os) us names (there, rest) =
    let (later, others) = Owners-front f os us (erase g names) rest in
    (
      has_of_erase f g names later,
      (has_after_swap f g names there later, rw (erase-erase g f names) others),
    )

-- An upload that ends well leaves its name behind.
pub has-erase_all :
    (f : Bytes) (os names : List Bytes) → Owners names (f ∷ os) → has f (erase_all os names) ≡ true
has-erase_all f [] names (there, rest) = there
has-erase_all f (g ∷ os) names (there, (other, rest)) =
    has-erase_all f os (erase g names)
      (has_after_swap g f names there other, rw (erase-erase f g names) rest)

Owners-of_erase : (f : Bytes) (os names : List Bytes) → Owners (erase f names) os → Owners names os
Owners-of_erase f [] names h = tt
Owners-of_erase f (g ∷ os) names (there, rest) = (
  has_of_erase g f names there,
  Owners-of_erase f os (erase g names) (rw (erase-erase f g names) rest),
)

pub Owners-of_one_more :
    (f : Bytes) (os names : List Bytes) → Owners names (f ∷ os) → Owners names os
Owners-of_one_more f os names (there, rest) = Owners-of_erase f os names rest

-- Its name is not among the others.
pub not-has-erase_all :
    (f : Bytes) (os names : List Bytes) → has f names ≡ false → has f (erase_all os names) ≡ false
not-has-erase_all f [] names h = h
not-has-erase_all f (g ∷ os) names h =
    not-has-erase_all f os (erase g names) (ground (arith, has_of_erase f g names))

pub not-has_erased : (f : Bytes) (s : List Bytes) → IsSorted s → has f (erase f s) ≡ false
not-has_erased f s h = ground (arith, has-erase f f s h, str_eq_refl f)

pub AllPresent-of_erase :
    (c : Contents) (f : Bytes) (s : List Bytes)
    → present (c f) ≡ true
    → AllPresent c (erase f s)
    → AllPresent c s
unfolding erase
AllPresent-of_erase c f [] p h = tt
AllPresent-of_erase c f (g ∷ gs) p h = ground (arith, AllPresent-of_erase c f gs, str_eq_iff f g)
