-- ===== src/Inspect/Ordered.antt =====
-- The spec of a live container has its maps and sets in order.
use unraid.Spec.{mount_ord}
use unraid.Spec.Parse.Ordered.{normalized-IsOrdered}
use unraid.Spec.Agrees.{IsOrdered}
use unraid.Text.{codes, text_eq, is_empty, Text}
use unraid.Spec.{MountSpec}
use unraid.Inspect.{baked_env, or_empty, PortBinding, ImageInspect, ContainerInspect, MountPoint}
use unraid.Inspect.Live.{
  no_env, key_value, bindings, env_entry, live_mount, LiveEnv, published, live_env, live_mounts,
}
use unraid.Map.{Map, IsSorted, add, Set}
use unraid.Inspect.Translated.{raw_spec, live_labels, live_spec}
use unraid.Base.{arith, if◌then◌else◌, Bool, List, true, false, [], ◌∷◌}
use unraid.Order.{Ord, list_ord, nat_ord}
use unraid.Map.Laws.{IsSorted-retain, IsSorted-insert}

-- The maps of docker's answer that the spec takes over are `BTreeMap`s.
pub record IsDecoded (c : ContainerInspect) : Type 0 where
  pub labels : IsSorted (or_empty c.config.labels)
  pub tmpfs : IsSorted (or_empty c.host_config.tmpfs)
  pub log_opts : IsSorted (or_empty c.host_config.log_config.config)

IsSorted-add : {K : Type 0} ⦃o : Ord K⦄ (k : K) (s : Set K) → IsSorted s → IsSorted (add k s)
unfolding add
IsSorted-add k s h = IsSorted-insert k tt s h

pub IsSorted-if :
    {K V : Type 0} ⦃o : Ord K⦄ (test : Bool) (m n : Map K V)
    → IsSorted m
    → IsSorted n
    → IsSorted (if test then m else n)
IsSorted-if true m n h k = h
IsSorted-if false m n h k = k

published-IsSorted :
    (bs : List (Text × PortBinding)) (ports : Set Text)
    → IsSorted ports
    → IsSorted (published bs ports)
unfolding published
published-IsSorted [] ports h = h
published-IsSorted ((cport, b) ∷ bs) ports h =
    published-IsSorted bs _ (IsSorted-if (is_empty b.host_port) ports _ h (IsSorted-add _ ports h))

env_entry-IsSorted :
    (baked : Set Text) (e : LiveEnv) (kv : Text)
    → IsSorted e.env
    → IsSorted (env_entry baked e kv).env
env_entry-IsSorted baked e kv h =
    ground (arith, IsSorted-insert (key_value kv).0 (key_value kv).1 e.env h)

live_env-IsSorted :
    (baked : Set Text) (e : LiveEnv) (kvs : List Text)
    → IsSorted e.env
    → IsSorted (live_env baked e kvs).env
unfolding live_env
live_env-IsSorted baked e [] h = h
live_env-IsSorted baked e (kv ∷ kvs) h =
    live_env-IsSorted baked (env_entry baked e kv) kvs (env_entry-IsSorted baked e kv h)

live_mount-IsSorted :
    (m : MountPoint) (mounts : Set MountSpec) → IsSorted mounts → IsSorted (live_mount m mounts)
live_mount-IsSorted m mounts h =
    IsSorted-if (text_eq m.kind (codes "volume")) _ _ (IsSorted-add _ mounts h)
      (IsSorted-if (text_eq m.kind (codes "bind")) _ _ (IsSorted-add _ mounts h) h)

live_mounts-IsSorted :
    (ms : List MountPoint) (mounts : Set MountSpec)
    → IsSorted mounts
    → IsSorted (live_mounts ms mounts)
unfolding live_mounts
live_mounts-IsSorted [] mounts h = h
live_mounts-IsSorted (m ∷ ms) mounts h = live_mounts-IsSorted ms _ (live_mount-IsSorted m mounts h)

live_labels-IsSorted :
    (c : ContainerInspect) (img : ImageInspect) → IsDecoded c → IsSorted (live_labels c img)
unfolding live_labels
live_labels-IsSorted c img d = IsSorted-retain _ _ (IsSorted-retain _ _ d.labels)

-- The spec of a live container has its maps and sets in order, as those of docker's answer are.
pub live_spec-IsOrdered :
    (c : ContainerInspect) (img : ImageInspect) → IsDecoded c → IsOrdered (live_spec c img).0
unfolding live_spec raw_spec
live_spec-IsOrdered c img d = normalized-IsOrdered (raw_spec c img) (record {
  ports = published-IsSorted (bindings c) [] tt;
  env = live_env-IsSorted (baked_env img) no_env (or_empty c.config.env) tt;
  mounts = live_mounts-IsSorted c.mounts [] tt;
  tmpfs = d.tmpfs;
  log_opts = d.log_opts;
  labels = live_labels-IsSorted c img d;
})
