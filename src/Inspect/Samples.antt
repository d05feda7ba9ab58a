-- ===== src/Inspect/Samples.antt =====
-- A container, its image and its volumes, for the tests.
use unraid.Text.Numbers.{pos}
use unraid.Inspect.{
  anonymous_volume_label, managed_label, expected_mountpoint, VolumeInspect, ContainerInspect,
  ImageInspect,
}
use unraid.Text.{codes, Text}
use unraid.Base.{◌++◌, some, true, false, [], ◌∷◌}
use unraid.Order.{list_ord, nat_ord}
use unraid.Base.{none}

abbrev pub bare_container : Text → ContainerInspect
bare_container name = record {
  id = codes "0123456789abcdef";
  name = b'/' ∷ name;
  image = codes "sha256:1";
  config = record {
    hostname = codes "0123456789ab";
    user = [];
    working_dir = [];
    env = some (codes "TZ=UTC" ∷ codes "MODE=fast" ∷ codes "PATH=/bin" ∷ []);
    cmd = none;
    entrypoint = none;
    image = codes "app";
    labels = some ((managed_label, codes "dockerman") ∷ []);
    tty = false;
    open_stdin = false;
  };
  host_config = record {
    network_mode = codes "default";
    privileged = false;
    port_bindings =
        some ((codes "80/tcp", some (record { host_ip = []; host_port = codes "8080" } ∷ [])) ∷ []);
    restart_policy = record { name = codes "on-failure"; maximum_retry_count = pos 3 };
    log_config = record { kind = []; config = none };
    tmpfs = none;
    device_requests = none;
    pids_limit = some (pos 2048);
  };
  mounts = [];
  state = record {
    status = codes "running";
    running = true;
    started_at = codes "2026-01-01T00:00:00Z";
    finished_at = [];
  };
  network_settings = record { networks = none };
}

abbrev pub bare_image : ImageInspect
bare_image = record {
  id = codes "sha256:1";
  repo_tags = none;
  config = record {
    env = some (codes "PATH=/bin" ∷ []);
    cmd = none;
    entrypoint = none;
    user = [];
    working_dir = [];
    labels = none;
  };
}

abbrev pub anonymous_volume : Text → VolumeInspect
anonymous_volume name = record {
  name = name;
  driver = codes "local";
  mountpoint = expected_mountpoint name;
  labels = some ((anonymous_volume_label, []) ∷ []);
  options = none;
  created_at = [];
}

-- A container with a volume at a path.
abbrev pub with_volume : ContainerInspect → Text → Text → ContainerInspect
with_volume c volume path = record c {
  mounts =
      c.mounts
      ++ record {
        kind = codes "volume";
        name = some volume;
        source = expected_mountpoint volume;
        destination = path;
        is_rw = true;
        propagation = [];
      }
        ∷ [];
}
