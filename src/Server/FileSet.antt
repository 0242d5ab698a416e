-- ===== src/Server/FileSet.antt =====
-- std::set<std::string>, as server/server.cpp uses it: the names in the order of the set.
pub mod Order
use distributed_server_clien.Prelude.Bytes.{
  Bytes, str_eq, str_lt, str_eq_iff, str_lt_irrefl, str_lt_total,
}
use distributed_server_clien.Prelude.{
  ◌≡◌, refl, ap, Bool, true, false, not, ◌&&◌, ◌||◌, List, [], ◌∷◌, arith, if◌then◌else◌,
}

-- `find(name) != end()`.
unfoldable pub has : Bytes → List Bytes → Bool
has name [] = false
has name (g ∷ gs) = str_eq name g || has name gs

-- `insert(name)`: a name that is there already stays alone.
unfoldable pub insert : Bytes → List Bytes → List Bytes
insert name [] = name ∷ []
insert name (g ∷ gs) =
    if str_lt name g then name ∷ g ∷ gs else if str_lt g name then g ∷ insert name gs else g ∷ gs

-- `erase(name)`.
unfoldable pub erase : Bytes → List Bytes → List Bytes
erase name [] = []
erase name (g ∷ gs) = if str_eq name g then gs else g ∷ erase name gs

pub has-insert : (j f : Bytes) (s : List Bytes) → has j (insert f s) ≡ (str_eq j f || has j s)
unfolding has insert
has-insert j f [] = refl
has-insert j f (g ∷ gs) =
    ground (arith, has-insert j f gs, str_lt_total f g, str_eq_iff j f, str_eq_iff j g)

-- Taking out a name that was just put in gives the set back.
pub erase-insert : (f : Bytes) (s : List Bytes) → has f s ≡ false → erase f (insert f s) ≡ s
unfolding has insert erase
erase-insert f [] h = ground (arith, str_eq_iff f f)
erase-insert f (g ∷ gs) h =
    ground (arith, erase-insert f gs, str_lt_total f g, str_eq_iff f g, str_eq_iff f f)

pub erase_of_not-has : (f : Bytes) (s : List Bytes) → has f s ≡ false → erase f s ≡ s
unfolding has erase
erase_of_not-has f [] h = refl
erase_of_not-has f (g ∷ gs) h = ground (arith, erase_of_not-has f gs)
