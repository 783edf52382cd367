-- ===== src/Discovery/DockerName.antt =====
-- `IsDockerAssigned` of internal/discovery/dockername/dockername.go. The word lists, which are those of
-- the Docker project, are two tests.
use dockbrr.Common.{Bool, true, false, ◌&&◌, Option, none, some, [], ◌∷◌, Text, if◌then◌else◌}
use dockbrr.Common.Strings.{is_digit, cut_at}

-- The name without its last byte, where that is a digit.
unfoldable pub strip_digit : Text → Text
strip_digit [] = []
strip_digit (c ∷ []) = if is_digit c then [] else c ∷ []
strip_digit (c ∷ d ∷ s) = let rest = strip_digit (d ∷ s) in c ∷ rest

abbrev is_nonempty : Text → Bool
is_nonempty [] = false
is_nonempty (c ∷ s) = true

-- The separator is neither missing, nor the first, nor the last byte.
abbrev both_words : (Text → Bool) → (Text → Bool) → Text × Option Text → Bool
both_words adjective surname (a, none) = false
both_words adjective surname (a, some s) =
    is_nonempty a && (is_nonempty s && (adjective a && surname s))

unfoldable pub is_docker_assigned : (Text → Bool) → (Text → Bool) → Text → Bool
is_docker_assigned adjective surname name =
    both_words adjective surname (cut_at 95 (strip_digit name))
