-- ===== src/Store/TagDigests.antt =====
-- The repository of internal/store/tag_digests.go: the config digests of release tags.
pub mod Latest
use dockbrr.Common.{
  Bool, true, false, ◌&&◌, Option, none, some, List, [], ◌∷◌, Text, text_eq, any, find, edit,
  if◌then◌else◌,
}

pub record Row : Type 0 where
  pub repo : Text
  pub tag : Text
  pub digest : Text

abbrev pub Table : Type 0
Table = List Row

abbrev pub at_key : Text → Text → Row → Bool
at_key repo tag r = text_eq r.repo repo && text_eq r.tag tag

abbrev pub digest_of : Option Row → Option Text
digest_of none = none
digest_of (some r) = some r.digest

-- `Get`, where the driver does not fail: `none` for `ok == false`.
unfoldable pub get : Text → Text → Table → Option Text
get repo tag t = digest_of (find (at_key repo tag) t)

unfoldable pub upsert : Text → Text → Text → Table → Table
upsert repo tag digest t =
    if any (at_key repo tag) t
    then edit (at_key repo tag) (λ r. record r { digest = digest }) t
    else record { repo = repo; tag = tag; digest = digest } ∷ t

-- `Put`, where the driver does not fail: an empty digest is not kept.
unfoldable pub put : Text → Text → Text → Table → Table
put repo tag digest t = if text_eq digest [] then t else upsert repo tag digest t
