-- ===== src/Examples/Detecting.antt =====
-- An exact tag with a newer release, a floating tag that is named by its digest, and the containers of
-- a stack.
use dockbrr.Common.{
  ◌≡◌, refl, ◌≤◌, true, false, some, none, List, [], ◌∷◌, bytes, length, text_eq, Text, All,
}
use dockbrr.Store.TagDigests.{Table, get, put}
use dockbrr.Store.TagDigests.Latest.{get-put}
use dockbrr.Detect.Reverse.{at, Registry, Cache, match_version}
use dockbrr.Detect.Reverse.Wanted.{Wanted}
use dockbrr.Detect.Reverse.Capped.{match_version_bound}
use dockbrr.Detect.Reverse.Named.{Names, match_version-Names}
use dockbrr.Detect.Detector.{Service, Remote, resolved, World, good, bad, detect}
use dockbrr.Detect.Detector.Real.{IsReal, detect-Real}
use dockbrr.Discovery.Group.{Container}
use dockbrr.Discovery.Locator.{locate_service}
use dockbrr.Discovery.Locator.Exact.{locate_service_lem}

abbrev registry : Registry
registry = record {
  list_tags = λ repo. some (bytes "1.2.4" ∷ bytes "latest" ∷ bytes "1.2.3" ∷ []);
  config_digest = λ repo tag. at (bytes "i1");
}

abbrev cache : Cache
cache = record { is_set = true; reads = true; writes = true; rows = [] }

match_version_bound_example :
    (length (match_version registry cache (bytes "nginx") (bytes "i1") []).asked ≤ 51)
    × All
        (Wanted registry (bytes "nginx") [])
        (match_version registry cache (bytes "nginx") (bytes "i1") []).asked
match_version_bound_example = match_version_bound registry cache (bytes "nginx") (bytes "i1") []

match_version-Names_example :
    Names registry
      (bytes "nginx")
      (bytes "i1")
      (match_version registry cache (bytes "nginx") (bytes "i1") [])
unfolding get
match_version-Names_example =
    match_version-Names registry cache (bytes "nginx") (bytes "i1") [] (λ repo tag d e. cc)

abbrev rows : Table
rows = record { repo = bytes "nginx"; tag = bytes "1.2.3"; digest = bytes "i0" } ∷ []

get-put_example :
    get (bytes "nginx") (bytes "1.2.3") (put (bytes "nginx") (bytes "1.2.3") (bytes "i1") rows)
    ≡ some (bytes "i1")
unfolding text_eq
get-put_example =
    get-put (bytes "nginx") (bytes "1.2.3") (bytes "i1") (bytes "nginx") (bytes "1.2.3") rows refl

abbrev image : Text → Remote
image dig = record {
  digest = dig;
  platform_digest = [];
  config_digest = bytes "i2";
  version = [];
  labels = bytes "{}";
}

abbrev world : World
world = record {
  registry = registry;
  resolve = λ ref. resolved (image (bytes "d2"));
  head = λ ref. bad (bytes "no");
  has_images = true;
  has_updates = true;
  named_before = λ r d. none;
  named_after = λ r d. none;
  stored_labels = λ r t. none;
  record_drift = λ d. good (3, true);
  save_event = good tt;
}

abbrev tracked : Service
tracked = record {
  id = 7;
  image_ref = bytes "nginx:1.2.3";
  current_digest = bytes "d1";
  current_image_id = bytes "i1";
  image_version = [];
  image_local = false;
}

detect-Real_example : All (IsReal world tracked) (detect world cache tracked).effects
detect-Real_example = detect-Real world cache tracked

abbrev container : Text → Text → Text → Container
container id project service = record {
  id = id;
  name = id;
  project = project;
  service = service;
  working_dir = [];
  config_files = [];
  image_ref = bytes "nginx:latest";
  repo_digest = bytes "d1";
  image_id = bytes "i1";
  version = [];
  state = bytes "running";
  pinned = false;
  healthcheck = false;
  self_update = false;
}

-- Two replicas of one service, another service, and a container of its own.
abbrev containers : List Container
containers =
    container (bytes "c1") (bytes "shop") (bytes "web")
    ∷ container (bytes "c2") [] []
    ∷ container (bytes "c3") (bytes "shop") (bytes "db")
    ∷ container (bytes "c4") (bytes "shop") (bytes "web")
    ∷ []

locate_service_lem_example :
    locate_service (bytes "shop") (bytes "web") containers
    ≡ (bytes "c1" ∷ bytes "c4" ∷ [], bytes "d1")
unfolding text_eq
locate_service_lem_example =
    locate_service_lem (bytes "shop") (bytes "web") containers refl refl
      ((λ e. refl), ((λ e. refl), ((λ e. refl), ((λ e. refl), tt))))
