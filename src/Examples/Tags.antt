-- ===== src/Examples/Tags.antt =====
-- Tags of an image, and references to it.
use dockbrr.Common.{◌≡◌, refl, some, List, [], ◌∷◌, Text, bytes, text_eq}
use dockbrr.Common.Strings.{has_char}
use dockbrr.Detect.Semver.{Core, core_less, tag_stream, newer_semver_tag}
use dockbrr.Detect.Semver.Newer.{HasCore, Tells, newer_semver_tag-Tells}
use dockbrr.Detect.Ref.{split_ref}
use dockbrr.Detect.Ref.Split.{split_ref-append}

abbrev tags : List Text
tags = bytes "1.9.0" ∷ bytes "1.10.2" ∷ bytes "1.10.2-alpine" ∷ bytes "latest" ∷ []

found_newer : newer_semver_tag (bytes "1.9.3") tags ≡ some (bytes "1.10.2")
unfolding newer_semver_tag tag_stream text_eq core_less
found_newer = refl

abbrev current : Core
current = record { major = 1; minor = 9; patch = 3 }

in_stream : HasCore [] current (bytes "1.9.3")
unfolding tag_stream
in_stream = refl

newer_semver_tag-Tells_example :
    Tells (bytes "1.9.3") [] current tags (newer_semver_tag (bytes "1.9.3") tags)
newer_semver_tag-Tells_example = newer_semver_tag-Tells (bytes "1.9.3") [] current tags in_stream

split_ref-append_example :
    split_ref (bytes "host:5000/nginx:1.2") ≡ (bytes "host:5000/nginx", bytes "1.2")
unfolding has_char
split_ref-append_example =
    split_ref-append (bytes "host:5000/nginx") (bytes "1.2") refl refl refl refl
