-- ===== src/Server/Store/Views.antt =====
-- The store that a set of names and the files under them stand for.
use mathlib.Core.Path.{fun_ext}
use distributed_server_clien.Prelude.Bytes.{Bytes, str_eq, str_eq_iff}
use distributed_server_clien.Prelude.{
  ◌≡◌, ◌≢◌, ◌∙◌, sym, ap, false, List, none, some, arith, if◌then◌else◌, Bool-cases, inl, inr,
}
use distributed_server_clien.Server.FileSet.{has, insert, erase, has-insert}
use distributed_server_clien.Server.FileSet.Order.{IsSorted, has-erase}
use distributed_server_clien.Server.Consistency.{Contents}
use distributed_server_clien.Server.Store.{Store, put}

-- A file counts only if its name is in the set: what else lies in the folder is not in the store.
abbrev pub view : Contents → List Bytes → Store
view c names g = if has g names then c g else none

module _ (c c' : Contents) (f : Bytes) (same : (g : Bytes) → f ≢ g → c' g ≡ c g)
    (names : List Bytes) where
  pub view_of_not-has : has f names ≡ false → view c' names ≡ view c names
  view_of_not-has h = fun_ext λ g. elim (Bool-cases (str_eq f g)) [
    | inl e ↦
        let out : has g names ≡ false =
          ap (λ (x : Bytes). has x names) (sym ((str_eq_iff f g).0 e)) ∙ h in
        rw out
    | inr ne ↦ rw (same g (λ e. cc (ne, (str_eq_iff f g).1 e)))
  ]

  pub view-insert :
      (bytes : Bytes)
      → c' f ≡ some bytes
      → view c' (insert f names) ≡ put (view c names) f (some bytes)
  view-insert bytes h = fun_ext λ g. elim (Bool-cases (str_eq f g)) [
    | inl e ↦
        let same_name : f ≡ g = (str_eq_iff f g).0 e in
        let there = ap c' (sym same_name) ∙ h in
        rw (e, has-insert g f names, (str_eq_iff g f).1 (sym same_name)) there
    | inr ne ↦
        let other = same g (λ e. cc (ne, (str_eq_iff f g).1 e)) in
        ground (arith, other, has-insert g f names, str_eq_iff f g, str_eq_iff g f)
  ]

  pub view-erase : IsSorted names → view c' (erase f names) ≡ put (view c names) f none
  view-erase sorted = fun_ext λ g. elim (Bool-cases (str_eq f g)) [
    | inl e ↦ ground (arith, has-erase g f names sorted, str_eq_iff f g, str_eq_iff g f)
    | inr ne ↦
        let other = same g (λ e. cc (ne, (str_eq_iff f g).1 e)) in
        ground (arith, other, has-erase g f names sorted, str_eq_iff f g, str_eq_iff g f)
  ]

-- Taking out a name that is not there.
pub put-none :
    (c : Contents) (names : List Bytes) (f : Bytes)
    → has f names ≡ false
    → view c names ≡ put (view c names) f none
put-none c names f h = fun_ext λ g. elim (Bool-cases (str_eq f g)) [
  | inl e ↦
      let out : has g names ≡ false =
        ap (λ (x : Bytes). has x names) (sym ((str_eq_iff f g).0 e)) ∙ h in
      rw (e, out)
  | inr ne ↦ rw ne
]
