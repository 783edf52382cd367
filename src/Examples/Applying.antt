-- ===== src/Examples/Applying.antt =====
-- A world in which an apply of a floating tag goes through.
use dockbrr.Common.{◌≡◌, refl, true, none, some, [], ◌∷◌, bytes}
use dockbrr.Detect.Semver.{digest_only}
use dockbrr.Store.Updates.Defs.{Update, available}
use dockbrr.Store.Jobs.Defs.{service}
use dockbrr.Job.Effects.{World, good, bad, Service}
use dockbrr.Job.Effects.Protocol.{fresh, snapped, Closes}
use dockbrr.Job.Rollback.{run_rollback}
use dockbrr.Job.Rollback.Restores.{Restored, run_rollback_lem}
use dockbrr.Job.Apply.{run_apply}
use dockbrr.Detect.Ref.{floating, classify_tag}
use dockbrr.Job.Effects.Writes.{Quiet}
use dockbrr.Job.Apply.Floating.{run_apply-Quiet}
use dockbrr.Job.Apply.Finishes.{run_apply-Closes}

abbrev pub web : Service
web = record {
  id = 7;
  project_id = 2;
  name = bytes "web";
  container_ids = bytes "c1" ∷ [];
  image_ref = bytes "nginx:latest";
  current_digest = bytes "d1";
  current_image_id = bytes "i1";
}

abbrev pub update : Update
update = record {
  id = 9;
  service_id = 7;
  from_digest = bytes "d1";
  to_digest = bytes "d2";
  from_version = [];
  to_version = [];
  tag = [];
  severity = digest_only;
  changelog_url = [];
  changelog_text = [];
  changelog_status = [];
  status = available;
  detected_at = 1;
  applied_at = none;
}

abbrev world : World
world = record {
  get_service = λ i. good web;
  get_project = λ i. good (record {
    name = bytes "shop";
    working_dir = bytes "/srv";
    config_files = bytes "/srv/compose.yml" ∷ [];
  });
  list_services = λ p i. good (web ∷ []);
  latest_open = λ i. good update;
  latest_snapshot =
      λ i. good (record { prev_repo = bytes "nginx"; prev_digest = bytes "d0"; blob = none });
  parse = λ d fs. good [];
  resolve = λ r. good (record { digest = bytes "d2"; platform_digest = [] });
  write_back = true;
  locate_image = λ fs n. bad (bytes "not found");
  read_file = λ f. bad (bytes "not found");
  hash_files = λ fs. good (bytes "h");
  save_snapshot = good tt;
  write_file = λ f c. good tt;
  create_override = λ d c. good (bytes "/srv/o.yml");
  compose = λ s. good 0;
  locate = λ p n s. good (bytes "c2" ∷ [], bytes "d2");
  save_runtime = λ i. good tt;
  save_event = good tt;
  save_rolled_back = good tt;
  inspect_json = λ c. bad (bytes "gone");
  inspect = λ n c. some (record { state = bytes "running"; health = []; raw_json = [] });
  polls = 3;
}

run_apply-Closes_example : Closes fresh (run_apply world (some 7) service)
run_apply-Closes_example = run_apply-Closes world (some 7) service

web_is_floating : classify_tag web.image_ref ≡ floating
unfolding classify_tag
web_is_floating = refl

run_apply-Quiet_example : Quiet (run_apply world (some 7) service)
run_apply-Quiet_example = run_apply-Quiet world 7 web service refl web_is_floating

run_rollback_lem_example :
    Closes snapped (run_rollback world (some 7) service)
    × Restored world (some 7) (run_rollback world (some 7) service)
run_rollback_lem_example = run_rollback_lem world (some 7) service
