-- ===== src/Compose/Dependents.antt =====
-- internal/compose/dependents.go: the services that borrow a namespace of another.
pub mod Exact
use dockbrr.Common.{
  Bool, true, false, ◌&&◌, ◌||◌, not, List, [], ◌∷◌, ◌++◌, Text, bytes, text_eq, ltb, ◌==◌, any,
  if◌then◌else◌,
}
use dockbrr.Common.Sort.{sort_by}

-- The fields of a compose `Service` that matter here.
pub record Service : Type 0 where
  pub name : Text
  pub network_mode : Text
  pub ipc : Text
  pub pid : Text

-- `<` on strings.
unfoldable pub text_lt : Text → Text → Bool
text_lt s [] = false
text_lt [] (d ∷ t) = true
text_lt (c ∷ s) (d ∷ t) = ltb c d || ((c == d) && text_lt s t)

unfoldable pub borrows : Text → Service → Bool
borrows want s = text_eq s.network_mode want || text_eq s.ipc want || text_eq s.pid want

-- The test of the loop: a service other than the target that borrows from it and is new in `out`.
unfoldable pub is_dependent : Text → List Text → Service → Bool
unfolding borrows
is_dependent target out s =
    not (text_eq s.name target)
    && borrows (bytes "service:" ++ target) s
    && not (any (λ n. text_eq n s.name) out)

-- The loop; `seen` holds just the names in `out`. `out` grows at its end in the source, and is
-- sorted behind the loop.
unfoldable pub collect : Text → List Text → List Service → List Text
unfolding is_dependent
collect target out [] = out
collect target out (s ∷ ss) =
    collect target (if is_dependent target out s then s.name ∷ out else out) ss

-- `NamespaceDependents`.
unfoldable pub namespace_dependents : List Service → Text → List Text
unfolding collect sort_by text_lt
namespace_dependents services target = sort_by text_lt (collect target [] services)
