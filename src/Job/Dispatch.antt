-- ===== src/Job/Dispatch.antt =====
-- internal/job/dispatch.go: where a claimed job goes, the guard of dockbrr's own container, and how the
-- id of that container is found. The repositories' answers are arguments.
pub mod Guard
pub mod Ids
use dockbrr.Common.{
  ℕ, zero, suc, Bool, true, false, ◌&&◌, ◌||◌, not, Option, none, some, List, [], ◌∷◌, Text, bytes,
  text_eq, leb, length, ◌==◌, any, if◌then◌else◌,
}
use dockbrr.Common.Strings.{has_prefix, split_on}
use dockbrr.Compose.Rewrite.{drop_prefix}
use dockbrr.Store.Jobs.Defs.{JobType, apply, rollback, start, stop, restart, remove, self_update}
use dockbrr.Job.Effects.{Answer, good, bad}

-- The fields of a job that are read.
pub record Target : Type 0 where
  pub kind : JobType
  pub project_id : Option ℕ
  pub service_id : Option ℕ

-- The wiring: `selfID`, and which of `services`, `jobs`, `projects` and `selfUpdater` are there.
pub record Wiring : Type 0 where
  pub self_id : Text
  pub services : Bool
  pub jobs : Bool
  pub projects : Bool
  pub updater : Bool

-- What the repositories answer: the container ids of a service and of the services of a project, and
-- the kind of a project.
pub record Stored : Type 0 where
  pub get_service : ℕ → Answer (List Text)
  pub list_project : ℕ → Answer (List (List Text))
  pub project_kind : ℕ → Answer Text

-- Where a job ends up: failed for want of an updater, refused, or with one of the handlers.
pub data Route : Type 0 where
  unavailable refused to_updater to_lifecycle to_standalone to_compose : Route

-- `mutatingTypes`.
unfoldable pub is_mutating : JobType → Bool
is_mutating apply = true
is_mutating rollback = true
is_mutating start = true
is_mutating stop = true
is_mutating restart = true
is_mutating remove = true
is_mutating _ = false

-- The prefix test, either way round.
unfoldable pub same_container : Text → Text → Bool
same_container self cid = has_prefix cid self || has_prefix self cid

-- The loop over the services.
unfoldable pub holds_self : Text → List (List Text) → Bool
unfolding same_container
holds_self self [] = false
holds_self self (ids ∷ svcs) = any (same_container self) ids || holds_self self svcs

abbrev pub service_holds : Text → Answer (List Text) → Bool
service_holds self (bad e) = false
service_holds self (good ids) = holds_self self (ids ∷ [])

abbrev pub project_holds : Text → Answer (List (List Text)) → Bool
project_holds self (bad e) = false
project_holds self (good svcs) = holds_self self svcs

-- `targetsSelf`: the service of the job, or else all of its project.
unfoldable pub targets_self : Text → Stored → Option ℕ → Option ℕ → Bool
unfolding holds_self
targets_self self st (some svc) project = service_holds self (st.get_service svc)
targets_self self st none (some project) = project_holds self (st.list_project project)
targets_self self st none none = false

-- The guard is armed for the job.
unfoldable pub guarded : Wiring → JobType → Bool
guarded w kind = not (text_eq w.self_id []) && w.services && w.jobs && is_mutating kind

-- `refuseSelfTarget`.
unfoldable pub refuse_self_target : Wiring → Stored → Target → Bool
unfolding guarded targets_self
refuse_self_target w st job =
    guarded w job.kind && targets_self w.self_id st job.service_id job.project_id

abbrev pub kind_is_standalone : Answer Text → Bool
kind_is_standalone (bad e) = false
kind_is_standalone (good kind) = text_eq kind (bytes "standalone")

-- `isStandalone`.
unfoldable pub is_standalone : Wiring → Stored → Option ℕ → Bool
is_standalone w st none = false
is_standalone w st (some project) = w.projects && kind_is_standalone (st.project_kind project)

-- The `switch` on the type of the job.
unfoldable pub by_kind : JobType → Bool → Route
by_kind start standalone = to_lifecycle
by_kind stop standalone = to_lifecycle
by_kind restart standalone = to_lifecycle
by_kind remove standalone = to_lifecycle
by_kind apply standalone = if standalone then to_standalone else to_compose
by_kind rollback standalone = if standalone then to_standalone else to_compose
by_kind _ standalone = to_compose

unfoldable pub route_guarded : Wiring → Stored → Target → Route
unfolding refuse_self_target by_kind is_standalone
route_guarded w st job =
    if refuse_self_target w st job
    then refused
    else by_kind job.kind (is_standalone w st job.project_id)

abbrev pub is_self_update : JobType → Bool
is_self_update self_update = true
is_self_update _ = false

-- `Dispatcher.Handle`.
unfoldable pub route : Wiring → Stored → Target → Route
unfolding route_guarded
route w st job =
    if is_self_update job.kind
    then (if w.updater then to_updater else unavailable)
    else route_guarded w st job

-- `[0-9a-f]`.
unfoldable pub is_hex : ℕ → Bool
is_hex c = (leb b'0' c && leb c b'9') || (leb b'a' c && leb c b'f')

-- So many characters of the class at the head.
unfoldable pub hex_head : ℕ → Text → Option Text
unfolding is_hex
hex_head zero s = some []
hex_head (suc n) [] = none
hex_head (suc n) (c ∷ s) =
    let rest = hex_head n s in
    if is_hex c then elim rest [ none ↦ none | some r ↦ some (c ∷ r) ] else none

abbrev pub or_text : Option Text → Text → Text
or_text none t = t
or_text (some s) t = s

-- `containerIDRe.FindString`: the leftmost match, the empty text if there is none.
unfoldable pub find_id : Text → Text
unfolding hex_head
find_id [] = []
find_id (c ∷ s) = let rest = find_id s in or_text (hex_head 64 (c ∷ s)) rest

-- What stands behind the first occurrence of the marker.
unfoldable pub behind : Text → Text → Option Text
unfolding has_prefix drop_prefix
behind marker [] = none
behind marker (c ∷ s) =
    let rest = behind marker s in
    if has_prefix (c ∷ s) marker then some (drop_prefix (c ∷ s) marker) else rest

abbrev pub marker : Text
marker = bytes "/containers/"

-- The match, if what stands behind the marker begins with it.
unfoldable pub anchored : Text → Text → Text
unfolding has_prefix
anchored rest id = if not (text_eq id []) && has_prefix rest id then id else []

-- One line of mountinfo.
unfoldable pub line_id : Text → Text
unfolding behind anchored find_id
line_id line = elim (behind marker line) [ none ↦ [] | some rest ↦ anchored rest (find_id rest) ]

-- The first text that is not empty.
abbrev pub or_next : Text → Text → Text
or_next [] later = later
or_next (c ∷ s) later = c ∷ s

unfoldable pub first_id : (Text → Text) → List Text → Text
first_id f [] = []
first_id f (l ∷ ls) = or_next (f l) (first_id f ls)

-- `parseContainerIDFromMountinfo`.
unfoldable pub id_from_mountinfo : Text → Text
unfolding first_id line_id
id_from_mountinfo content = first_id line_id (split_on 10 content)

-- `parseContainerIDFromCgroup`.
unfoldable pub id_from_cgroup : Text → Text
unfolding first_id
id_from_cgroup content = first_id find_id (split_on 10 content)

-- The loop over the characters of the hostname.
unfoldable pub all_hex : Text → Bool
unfolding is_hex
all_hex [] = true
all_hex (c ∷ s) = is_hex c && all_hex s

-- `parseContainerIDFromHostname`.
unfoldable pub id_from_hostname : Text → Text
unfolding all_hex
id_from_hostname host = if (length host == 12) && all_hex host then host else []

abbrev pub read : (Text → Text) → Option Text → Text
read f none = []
read f (some content) = f content

-- `SelfContainerID`, over what the two files and the hostname read; `none` is an error.
unfoldable pub self_container_id : Option Text → Option Text → Option Text → Text
unfolding id_from_mountinfo id_from_cgroup id_from_hostname
self_container_id mountinfo cgroup host =
    or_next (read id_from_mountinfo mountinfo)
      (or_next (read id_from_cgroup cgroup) (read id_from_hostname host))
