-- ===== src/Updater/Fixture.antt =====
-- A world where every call is answered and the health check passes after three seconds, and
-- containers of it, for the tests.
use openwatch.Base.{ℕ, ◌+◌, ◌≤◌, true, false, none, some, List, [], ◌∷◌, arith, if◌then◌else◌, ltb}
use openwatch.Base.Text.{Text, codes}
use openwatch.Base.Assoc.{Assoc, lookup}
use openwatch.Base.Numbers.{pos}
use openwatch.Base.Errors.{message, ok, err}
use openwatch.Config.{Config}
use openwatch.Docker.{
  ContainerConfig, HostConfig, healthy, HealthStatus, InspectResponse, Container,
}
use openwatch.Docker.Labels.{label_enable, label_notify_only, label_value_true, label_value_false}
use openwatch.State.{new_state_store}
use openwatch.Updater.Health.Laws.{SteadyClock}
use openwatch.Updater.Watcher.Quiet.{IsQuiet}
use openwatch.State.{get}
use openwatch.World.{Call, Env, World, Response}

-- A pause takes its time, every other call a nanosecond.
abbrev pub cost : Call → ℕ
cost (Call.sleep d) = d
cost _ = 1

abbrev pub elapsed : List Call → ℕ
elapsed [] = 0
elapsed (c ∷ tr) = let rest = elapsed tr in cost c + rest

abbrev pub settings : ContainerConfig
settings = record {
  image = codes "web:1";
  env = [];
  cmd = [];
  entrypoint = [];
  working_dir = [];
  user = [];
  labels = [];
  healthcheck = some (record { test = codes "CMD" ∷ codes "true" ∷ [] });
  rest = [];
}

abbrev pub host : HostConfig
host = record {
  network_mode = codes "container:db";
  ipc_mode = [];
  pid_mode = [];
  uts_mode = [];
  userns_mode = [];
  rest = [];
}

-- Healthy after three seconds.
abbrev pub inspected : List Call → InspectResponse
inspected tr = record {
  has_base = true;
  id = codes "c1";
  name = codes "/web";
  image = codes "sha256:old";
  config = some settings;
  host_config = some host;
  state = some (record {
    running = true;
    restarting = false;
    status = codes "running";
    exit_code = pos 0;
    health = some (record {
      status =
          if ltb (elapsed tr) 3000000000 then HealthStatus.other (codes "starting") else healthy;
      failing_streak = pos 0;
    });
  });
  networks = [];
}

abbrev pub manifest : Response
manifest = record {
  status = 200;
  www_authenticate = [];
  docker_content_digest = codes "sha256:new";
  content_type = [];
  body = ok [];
}

abbrev pub answers : Env
answers = record {
  container_list = λ tr b. ok (codes "c1" ∷ []);
  container_inspect = λ tr id. ok (inspected tr);
  container_start = λ tr id. ok tt;
  container_stop = λ tr id t. ok tt;
  container_kill = λ tr id. ok tt;
  container_remove = λ tr id. ok tt;
  container_create = λ tr name. ok (codes "c2");
  network_connect = λ tr net id. ok tt;
  image_inspect =
      λ tr ref. ok (record { id = codes "sha256:old"; repo_digests = []; config = some settings });
  image_pull = λ tr ref. ok tt;
  image_drain = λ tr ref. ok tt;
  image_remove = λ tr ref. ok tt;
  http = λ tr r. ok manifest;
  now = elapsed;
  cancelled = λ tr. false;
  hostname = λ tr. ok (codes "host");
  home_dir = λ tr. ok (codes "/root");
  read_file = λ tr p. err (message (codes "no file"));
  run_helper = λ tr h s. err (message (codes "no helper"));
  aws_config = λ tr. ok tt;
  ecr_token = λ tr. ok none;
  encode_auth = λ a. ok [];
  decode_base64 = λ t. ok t;
  decode_manifest = λ t. ok (codes "sha256:leaf");
  decode_manifest_list = λ t. ok [];
  decode_token = λ t. ok ([], []);
  decode_docker_config = λ t. err (message (codes "no configuration"));
  decode_credential = λ t. ok ([], []);
  url_host = λ t. ok t;
  is_url = λ t. true;
  join_path = λ ts. [];
  goarch = codes "amd64";
}

abbrev pub start : World
start = record { trace = []; store = some new_state_store; writes = []; metrics = none }

abbrev pub defaults : Config
defaults = record {
  interval = pos 60;
  schedule = [];
  cleanup = true;
  include_stopped = false;
  label_enable = false;
  rollback_on_failure = true;
  healthcheck_timeout = pos 30;
  stop_timeout = pos 10;
  notify_url = [];
  log_level = [];
  log_format = [];
  http_api = false;
  docker_config = [];
  registry_user = [];
  registry_password = [];
}

abbrev pub web : Assoc Text → Container
web labels = record {
  id = codes "c1";
  name = codes "web";
  image = codes "web:1";
  image_id = codes "sha256:old";
  labels = labels;
  inspect = inspected [];
}

abbrev pub watched : Container
watched = web ((label_notify_only, label_value_true) ∷ [])

abbrev pub unmanaged : Container
unmanaged = web ((label_enable, label_value_false) ∷ [])

pub answers-SteadyClock : SteadyClock answers
answers-SteadyClock = record {
  monotone = λ c tr. later (cost c) (elapsed tr);
  advances = λ d tr e. longer d (elapsed tr);
}
  where
    later : (a b : ℕ) → ◌≤◌ b (a + b)
    later a b = omega arith

    longer : (a b : ℕ) → ◌≤◌ (b + a) (a + b)
    longer a b = omega arith

pub new-IsQuiet : IsQuiet (some new_state_store)
unfolding IsQuiet new_state_store get lookup
new-IsQuiet = λ n e g. cc
