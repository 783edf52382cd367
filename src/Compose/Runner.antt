-- ===== src/Compose/Runner.antt =====
-- internal/compose/runner.go: the compose invocations and their argument vectors. To run them is
-- the work of the `docker` program.
use dockbrr.Common.{
  Bool, true, false, ◌&&◌, not, Option, none, some, List, [], ◌∷◌, ◌++◌, Text, bytes, text_eq,
  if◌then◌else◌,
}
use dockbrr.Common.Strings.{join_with}
use dockbrr.Store.Jobs.Defs.{Scope, service}

-- The verbs of `allowedVerbs`, and any other text.
pub data Verb : Type 0 where
  pull up down ps config : Verb
  other : Text → Verb

unfoldable pub verb_text : Verb → Text
verb_text pull = bytes "pull"
verb_text up = bytes "up"
verb_text down = bytes "down"
verb_text ps = bytes "ps"
verb_text config = bytes "config"
verb_text (other v) = v

-- `allowedVerbs`.
unfoldable pub allowed_verb : Verb → Bool
allowed_verb (other v) = false
allowed_verb _ = true

-- `RunSpec`.
pub record RunSpec : Type 0 where
  pub config_files : List Text
  pub project_dir : Text
  pub project_name : Text
  pub verb : Verb
  pub args : List Text

unfoldable pub file_args : List Text → List Text
file_args [] = []
file_args (f ∷ fs) = bytes "-f" ∷ f ∷ file_args fs

-- A flag with its value, where the value is not empty.
unfoldable pub flag_args : Text → Text → List Text
flag_args flag [] = []
flag_args flag (c ∷ s) = flag ∷ (c ∷ s) ∷ []

-- `buildArgs`; `none` is `ErrVerbNotAllowed`.
unfoldable pub build_args : RunSpec → Option (List Text)
unfolding allowed_verb verb_text file_args flag_args
build_args spec =
    if allowed_verb spec.verb
    then some (
        bytes "compose"
        ∷ (file_args spec.config_files
            ++ (flag_args (bytes "--project-directory") spec.project_dir
                ++ (flag_args (bytes "-p") spec.project_name
                    ++ (verb_text spec.verb ∷ spec.args)))))
    else none

-- `Preview`.
unfoldable pub preview : RunSpec → Option Text
unfolding build_args join_with
preview spec = elim (build_args spec) [
  | none ↦ none
  | some args ↦ some (bytes "docker " ++ join_with b' ' args)
]

abbrev pub is_service_scope : Scope → Bool
is_service_scope service = true
is_service_scope _ = false

-- `scope == "service" && service != ""`.
abbrev pub one_service : Scope → Text → Bool
one_service scope name = is_service_scope scope && not (text_eq name [])

-- `ScopeTargets`.
unfoldable pub scope_targets : Scope → Text → List Text
scope_targets scope name = if one_service scope name then name ∷ [] else []

-- `PullSpec`.
unfoldable pub pull_spec : List Text → Text → Text → Scope → Text → RunSpec
unfolding scope_targets
pull_spec files dir project scope name = record {
  config_files = files;
  project_dir = dir;
  project_name = project;
  verb = pull;
  args = scope_targets scope name;
}

-- `UpSpec`.
unfoldable pub up_spec : List Text → Text → Text → Scope → Text → RunSpec
up_spec files dir project scope name = record {
  config_files = files;
  project_dir = dir;
  project_name = project;
  verb = up;
  args = bytes "-d" ∷ (if one_service scope name then bytes "--no-deps" ∷ name ∷ [] else []);
}

-- `ForceRecreateSpec`.
unfoldable pub force_recreate_spec : List Text → Text → Text → List Text → RunSpec
force_recreate_spec files dir project services = record {
  config_files = files;
  project_dir = dir;
  project_name = project;
  verb = up;
  args = bytes "-d" ∷ bytes "--no-deps" ∷ bytes "--force-recreate" ∷ services;
}
