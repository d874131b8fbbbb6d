-- ===== src/Worker/Tests.antt =====
-- A run over a repository with one queued job, whose builder answers with one artifact.
use opendesk_remote.Prelude.{
  ◌≡◌, ◌⊎◌, pos, String, none, some, [], ◌∷◌, ok, false, find_first, no_queued_jobs,
}
use opendesk_remote.Models.Builds.{BuildJob}
use opendesk_remote.Repository.Samples.{memory}
use opendesk_remote.Repository.Builds.{is_queued}
use opendesk_remote.Repository.Builds.Jobs.{here}
use opendesk_remote.Worker.{World, Config, run_once}
use opendesk_remote.Worker.Spec.{Json}
use opendesk_remote.Worker.Ended.{HasEnded, run_once-HasEnded}

abbrev json : Json
json = record {
  Value = String;
  text = λ s. s;
  truth = λ b. "true";
  unmarshal = λ s. ok [];
  marshal = λ values. ok "{}";
  marshal_spec = λ spec. ok "{}";
}

abbrev world : World
world = record {
  json = json;
  join = λ parts. "path";
  base = λ path. "client.exe";
  job_name = λ id. "job-3";
  duration = λ d. "2h0m0s";
  text_of = λ e. "failed";
  mkdir_all = λ path. none;
  write_file = λ path content. none;
  run = λ limit command. (record { stdout = "{}"; stderr = "" }, none);
  parse = λ raw. ok (record {
    build_log = "build.log";
    artifacts = record { path = "out/client.exe"; sha256 = "00"; bytes = pos 7 } ∷ [];
  });
  meanwhile = λ m. m;
}

abbrev config : Config
config = record {
  runner_name = "worker";
  builder_binary = "builder";
  work_dir = "work";
  source_dir = "src";
  build_command = "";
  artifact_glob = "";
  dry_run = false;
  timeout = pos 5;
}

run_once-HasEnded_example :
    ((find_first is_queued memory.build_jobs ≡ none)
      × ((run_once world config memory 20 30 (λ n. n)).1.error ≡ some no_queued_jobs)
      × ((run_once world config memory 20 30 (λ n. n)).0 ≡ memory))
    ⊎ ((job : BuildJob) × (find_first is_queued memory.build_jobs ≡ some job)
        × HasEnded job.id (run_once world config memory 20 30 (λ n. n)).0)
run_once-HasEnded_example = run_once-HasEnded world config (λ m. here) memory 20 30 (λ n. n)
