-- ===== src/Inspect/Translated.antt =====
-- src/docker_adopt/inspect.rs: `live_spec`, from the hostname on.
use unraid.Spec.Diff.{words_eq}
use unraid.Text.Utf8.{prefix_bytes}
use unraid.Inspect.Live.{
  tty_or_stdin, working_dir_override, live_mounts, user_override, other_mounts, published, bindings,
  entrypoint_override, unpublished, device_request, no_env, network_problems, Unsupported, live_env,
}
use unraid.Text.{starts_with, text_eq, codes, is_empty, Text}
use unraid.Spec.{default_log_driver, normalized, RunSpec}
use unraid.Text.Numbers.{decimal, pos, negsuc, ℤ}
use unraid.Base.{
  zero, ◌||◌, option_eq, ◌&&◌, ◌++◌, suc, false, none, true, not, [], any, Bool, some,
  if◌then◌else◌, ℕ, get_or, ◌∷◌, Option, List,
}
use unraid.Map.{retain, Map}
use unraid.Inspect.{
  get_in, short_name, network_of, baked_env, or_empty, problem_if, DeviceRequest, RestartPolicy,
  ContainerInspect, ImageInspect,
}

-- `c.id.get(..12).unwrap_or(&c.id)`
unfoldable pub short_id : ContainerInspect → Text
short_id c = get_or (prefix_bytes 12 c.id) c.id

unfoldable pub hostname_of : ContainerInspect → Option Text
hostname_of c =
    let h = c.config.hostname in
    if not (is_empty h) && not (text_eq (network_of c) (codes "host")) then some h else none

abbrev is_positive : ℤ → Bool
is_positive (pos zero) = false
is_positive (pos (suc n)) = true
is_positive (negsuc n) = false

-- The decimal digits of an integer.
unfoldable pub decimal_integer : ℤ → Text
decimal_integer (pos n) = decimal n
decimal_integer (negsuc n) = b'-' ∷ decimal (suc n)

abbrev or_previous : Option Text → Option Text → Option Text
or_previous none gpus = gpus
or_previous (some t) gpus = some t

abbrev is_none : Option Text → Bool
is_none none = true
is_none (some _) = false

abbrev is_gpu : DeviceRequest → Bool
is_gpu dr = any (λ caps. any (text_eq (codes "gpu")) caps) (or_empty dr.capabilities)

-- What one device request asks of the GPUs: none if the template cannot express it.
unfoldable pub gpus_of_count : ℤ → Option Text
unfolding decimal_integer
gpus_of_count (negsuc zero) = some (codes "all")
gpus_of_count (pos (suc n)) = some (decimal_integer (pos (suc n)))
gpus_of_count _ = none

abbrev gpus_of_ids : ℤ → List Text → Option Text
gpus_of_ids count [] = gpus_of_count count
gpus_of_ids count (device ∷ []) = some (codes "device=" ++ device)
gpus_of_ids count (_ ∷ _ ∷ _) = none

unfoldable pub gpus_of_request : DeviceRequest → Option Text
gpus_of_request dr = if is_gpu dr then gpus_of_ids dr.count (or_empty dr.device_ids) else none

-- The loop over the device requests, for its two results.
unfoldable pub live_gpus : List DeviceRequest → Option Text → Option Text
live_gpus [] gpus = gpus
live_gpus (dr ∷ drs) gpus = live_gpus drs (or_previous (gpus_of_request dr) gpus)

unfoldable pub other_devices : List DeviceRequest → List Unsupported
other_devices [] = []
other_devices (dr ∷ drs) =
    problem_if (is_none (gpus_of_request dr))
      (device_request dr.driver dr.count (or_empty dr.device_ids))
    ++ other_devices drs

unfoldable pub live_restart : RestartPolicy → Option Text
live_restart p =
    if is_empty p.name || text_eq p.name (codes "no")
    then none
    else if text_eq p.name (codes "on-failure") && is_positive p.maximum_retry_count
    then some (codes "on-failure:" ++ decimal_integer p.maximum_retry_count)
    else some p.name

-- The labels that the operator set.
unfoldable pub live_labels : ContainerInspect → ImageInspect → Map Text Text
live_labels c img =
    retain (λ k v. not (starts_with (codes "com.docker.compose.") k))
      (retain (λ k v. not (option_eq text_eq (get_in img.config.labels k) (some v)))
        (or_empty c.config.labels))

unfoldable pub live_cmd : ContainerInspect → ImageInspect → List Text
live_cmd c img =
    if not (option_eq words_eq c.config.cmd img.config.cmd) then or_empty c.config.cmd else []

unfoldable pub overrides : ContainerInspect → ImageInspect → List Unsupported
overrides c img =
    problem_if (not (option_eq words_eq c.config.entrypoint img.config.entrypoint))
      (entrypoint_override c.config.entrypoint)
    ++ problem_if (not (text_eq c.config.user img.config.user)) (user_override c.config.user)
    ++ problem_if (not (text_eq c.config.working_dir img.config.working_dir))
        (working_dir_override c.config.working_dir)
    ++ problem_if (c.config.tty || c.config.open_stdin) tty_or_stdin

-- `hc.pids_limit.filter(|n| *n > 0)`
unfoldable pub live_pids_limit : Option ℤ → Option ℕ
live_pids_limit none = none
live_pids_limit (some (pos zero)) = none
live_pids_limit (some (pos (suc n))) = some (suc n)
live_pids_limit (some (negsuc n)) = none

-- The spec before it is normalized.
unfoldable pub raw_spec : ContainerInspect → ImageInspect → RunSpec
raw_spec c img =
    let hc = c.host_config in
    let e = live_env (baked_env img) no_env (or_empty c.config.env) in
    record {
      name = short_name c;
      image = c.config.image;
      network = network_of c;
      privileged = hc.privileged;
      hostname = hostname_of c;
      hostname_is_default = option_eq text_eq (hostname_of c) (some (short_id c));
      ports = published (bindings c) [];
      env = e.env;
      tz = e.tz;
      mounts = live_mounts c.mounts [];
      tmpfs = or_empty hc.tmpfs;
      log_driver = if is_empty hc.log_config.kind then default_log_driver else hc.log_config.kind;
      log_opts = or_empty hc.log_config.config;
      gpus = live_gpus (or_empty hc.device_requests) none;
      restart = live_restart hc.restart_policy;
      pids_limit = live_pids_limit hc.pids_limit;
      labels = live_labels c img;
      cmd = live_cmd c img;
      other = [];
    }

-- What the template cannot express, in the source's order.
unfoldable pub unsupported : ContainerInspect → ImageInspect → List Unsupported
unsupported c img =
    network_problems c
    ++ (unpublished (bindings c)
        ++ (other_mounts c.mounts
            ++ (other_devices (or_empty c.host_config.device_requests) ++ overrides c img)))

unfoldable pub live_spec : ContainerInspect → ImageInspect → RunSpec × List Unsupported
live_spec c img = (normalized (raw_spec c img), unsupported c img)
