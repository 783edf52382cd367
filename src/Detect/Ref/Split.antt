-- ===== src/Detect/Ref/Split.antt =====
-- `SplitRef` of internal/detect/detect.go.
use dockbrr.Common.{◌≡◌, false, ◌∷◌, ◌++◌, Text, arith}
use dockbrr.Common.Strings.{has_char}
use dockbrr.Common.Strings.Cuts.{cut_at_absent, cut_last-append, has_char-append}
use dockbrr.Detect.Ref.{split_tag, split_ref}

split_tag-append :
    (repo tag : Text)
    → has_char b':' tag ≡ false
    → has_char b'/' tag ≡ false
    → split_tag (repo ++ (b':' ∷ tag)) ≡ (repo, tag)
unfolding split_tag
split_tag-append repo tag h k = rw (cut_last-append b':' repo tag h, split_tag, k)

-- A reference written as "repo:tag" splits into the repo and the tag, where neither has an "@" and
-- the tag has no ":" and no "/". The repo may hold a registry port.
pub split_ref-append :
    (repo tag : Text)
    → has_char b'@' repo ≡ false
    → has_char b'@' tag ≡ false
    → has_char b':' tag ≡ false
    → has_char b'/' tag ≡ false
    → split_ref (repo ++ (b':' ∷ tag)) ≡ (repo, tag)
unfolding split_ref
split_ref-append repo tag h k l m =
    rw
      (cut_at_absent b'@' (repo ++ (b':' ∷ tag))
        (has_char-append b'@' repo (b':' ∷ tag) h (unfold has_char in ground arith)))
      (split_tag-append repo tag l m)
