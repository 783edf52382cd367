-- ===== src/Compose/Rewrite.antt =====
-- internal/compose/rewrite.go: `ReplaceImageLine`, and `LocateImageLine` over parsed documents. The
-- YAML parser and the file system are arguments.
pub mod Replace
use dockbrr.Common.{
  ℕ, zero, suc, Bool, true, false, ◌||◌, not, Option, none, some, List, [], ◌∷◌, ◌++◌, Text, bytes,
  text_eq, get_elem?, set, if◌then◌else◌,
}
use dockbrr.Common.Strings.{contains, has_prefix, split_on, join_with}

-- What stands behind a prefix of that length.
unfoldable pub drop_prefix : Text → Text → Text
drop_prefix s [] = s
drop_prefix [] (p ∷ ps) = []
drop_prefix (c ∷ s) (p ∷ ps) = drop_prefix s ps

-- `strings.Replace(s, old, new, 1)`.
unfoldable pub replace_first : Text → Text → Text → Text
unfolding has_prefix drop_prefix
replace_first [] old new = if has_prefix [] old then new else []
replace_first (c ∷ s) old new =
    let rest = replace_first s old new in
    if has_prefix (c ∷ s) old then new ++ drop_prefix (c ∷ s) old else c ∷ rest

pub data RewriteError : Type 0 where
  out_of_range not_contained : RewriteError

pub data Rewritten : Type 0 where
  rewritten : Text → Rewritten
  refused : RewriteError → Rewritten

-- The step behind the range test.
unfoldable pub replace_in : List Text → ℕ → Text → Text → Option Text → Rewritten
unfolding contains replace_first join_with
replace_in lines i old new none = refused out_of_range
replace_in lines i old new (some l) =
    if contains l old
    then rewritten (join_with 10 (set lines i (replace_first l old new)))
    else refused not_contained

-- `ReplaceImageLine`; the line counts from 1, and there is none below 1 or above the number of lines.
unfoldable pub replace_image_line : Text → Text → Text → ℕ → Rewritten
unfolding replace_in split_on
replace_image_line content old new zero = refused out_of_range
replace_image_line content old new (suc i) =
    replace_in (split_on 10 content) i old new (get_elem? (split_on 10 content) i)

pub data Kind : Type 0 where
  mapping alias_node other_kind : Kind

-- `yaml.Node`: kind, value, line and content.
mutual
  pub data Node : Type 0 where
    node : Kind → Text → ℕ → Nodes → Node

  pub data Nodes : Type 0 where
    nil : Nodes
    cons : Node → Nodes → Nodes

abbrev pub node_kind : Node → Kind
node_kind (node k v l c) = k

abbrev pub node_value : Node → Text
node_value (node k v l c) = v

abbrev pub node_line : Node → ℕ
node_line (node k v l c) = l

-- The value behind the first key that fits.
unfoldable pub lookup_key : Text → Nodes → Option Node
lookup_key key nil = none
lookup_key key (cons k nil) = none
lookup_key key (cons k (cons v rest)) =
    let later = lookup_key key rest in if text_eq (node_value k) key then some v else later

-- `mapValue`.
unfoldable pub map_value : Node → Text → Option Node
unfolding lookup_key
map_value (node mapping v l c) key = lookup_key key c
map_value (node _ v l c) key = none

-- `imageScalar`.
unfoldable pub image_of_root : Node → Text → Option Node
unfolding map_value
image_of_root root name = elim (map_value root (bytes "services")) [
  | none ↦ none
  | some services ↦ elim (map_value services name) [
    | none ↦ none
    | some svc ↦ map_value svc (bytes "image")
  ]
]

unfoldable pub image_scalar : Node → Text → Option Node
unfolding image_of_root
image_scalar (node k v l nil) name = none
image_scalar (node k v l (cons root rest)) name = image_of_root root name

-- `LocatedImage`.
pub record LocatedImage : Type 0 where
  pub file : Text
  pub line : ℕ
  pub old_ref : Text
  pub rewritable : Bool

abbrev pub is_alias : Node → Bool
is_alias (node alias_node v l c) = true
is_alias (node _ v l c) = false

-- What one file that declares the image gives.
unfoldable pub located : Text → Node → LocatedImage
unfolding contains
located file n = record {
  file = file;
  line = node_line n;
  old_ref = node_value n;
  rewritable =
      not (contains (node_value n) (bytes "${") || is_alias n || text_eq (node_value n) []);
}

-- The zero value.
abbrev pub not_found : LocatedImage
not_found = record { file = []; line = 0; old_ref = []; rewritable = false }

abbrev pub or_found : Text → Option Node → LocatedImage → LocatedImage
or_found file none found = found
or_found file (some n) found = located file n

-- `LocateImageLine`, with reading and parsing of a file as an argument: `none` is an error of
-- either, which ends the search.
unfoldable pub locate_image_line :
    (Text → Option Node) → Text → LocatedImage → List Text → Option LocatedImage
unfolding located image_scalar
locate_image_line load name found [] = some found
locate_image_line load name found (f ∷ fs) = elim (load f) [
  | none ↦ none
  | some doc ↦ locate_image_line load name (or_found f (image_scalar doc name) found) fs
]
