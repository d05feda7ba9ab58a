-- ===== src/Spec/Tests.antt =====
-- Runs of `parse_command` and `diff`.
use unraid.Map.{add, get, retain, remove, insert}
use unraid.Labels.{is_ownership_key}
use unraid.Shell.{step, run, shell_split}
use unraid.Base.{refl, false, [], ok, true, ◌∷◌, none, some, ◌≡◌, ◌↔◌}
use unraid.Text.{
  trim_matches, trim, strip_prefix, is_whitespace, contains, split_once_text, text_eq, split_once,
  starts_with, Text, codes, split,
}
use unraid.Spec.{
  mount_key, normalize_image, non_default_propagation, port_key, RunSpec, bind, volume, normalized,
}
use unraid.Order.{list_cmp, nat_ord, list_ord}
use unraid.Spec.Parse.{parse_command, read_words, set_arm, flag_of, initial}
use unraid.Spec.Parse.Ordered.{parse_command-IsOrdered}
use unraid.Spec.Mounts.{mount_field, mount_fields, parse_volume, parse_mount, parse_publish}
use unraid.Spec.Diff.{diff, Masks, adopt, plain}
use unraid.Spec.Diff.Entries.{AllIntended}
use unraid.Spec.Diff.Gate.{diff-Agrees}
use unraid.Spec.Agrees.{IsOrdered, Agrees}

volume_test :
    parse_volume (codes "/a:/b:ro,rslave")
    ≡ ok (record {
      kind = bind;
      source = codes "/a";
      target = codes "/b";
      read_only = true;
      propagation = some (codes "rslave");
    })
unfolding parse_volume split starts_with text_eq contains non_default_propagation
volume_test = refl

mount_test :
    parse_mount (codes "type=volume,src=v,dst=/c,volume-label=orca.managed=true")
    ≡ ok (record {
      kind = volume;
      source = codes "v";
      target = codes "/c";
      read_only = false;
      propagation = none;
    })
unfolding parse_mount mount_fields mount_field split split_once text_eq is_ownership_key
mount_test = refl

publish_test :
    (parse_publish (codes "[::1]:80:8080") ≡ ok (codes "[::1]:80:8080/tcp"))
    × (parse_publish (codes "0.0.0.0:80:8080/udp") ≡ ok (codes "80:8080/udp"))
unfolding parse_publish split split_once split_once_text strip_prefix port_key trim_matches text_eq
publish_test = (refl, refl)

runs : Unit {0}
unfolding parse_command read_words set_arm flag_of shell_split run step is_whitespace trim
    starts_with split_once text_eq contains insert list_cmp normalized normalize_image remove retain
    get strip_prefix parse_volume split non_default_propagation add mount_key
runs = tt

abbrev command : Text
command =
    codes
      "/usr/bin/docker create --name='x' --net='br0' -e TZ='UTC' -e 'B'='2' -e 'A'='1' -v '/a':'/b' -d 'nginx' go"

abbrev parsed : RunSpec
parsed = record initial {
  name = codes "x";
  image = codes "nginx:latest";
  network = codes "br0";
  env = (codes "A", codes "1") ∷ (codes "B", codes "2") ∷ [];
  tz = codes "UTC";
  mounts =
      (
        record {
          kind = bind;
          source = codes "/a";
          target = codes "/b";
          read_only = false;
          propagation = none;
        },
        tt,
      )
      ∷ [];
  cmd = codes "go" ∷ [];
  other = codes "-d" ∷ [];
}

command_test : parse_command command ≡ ok parsed
unfolding runs
command_test = refl

parsed-IsOrdered : IsOrdered parsed
parsed-IsOrdered = parse_command-IsOrdered command parsed command_test

-- The live container, with docker's default hostname and no limit.
abbrev live : RunSpec
live = record parsed {
  hostname = some (codes "0123456789ab");
  hostname_is_default = true;
  other = [];
}

abbrev rendered : RunSpec
rendered = record live { hostname = none; pids_limit = some 2048 }

abbrev unmasked : Masks
unmasked = record { mask = plain; mask_label = plain; mask_cmd = λ ws. ws }

live-IsOrdered : IsOrdered live
live-IsOrdered = let h = parsed-IsOrdered in assumption h

rendered-IsOrdered : IsOrdered rendered
rendered-IsOrdered = let h = parsed-IsOrdered in assumption h

diff-Agrees_example : AllIntended (diff unmasked live rendered adopt) ↔ Agrees live rendered adopt
diff-Agrees_example = diff-Agrees unmasked live rendered adopt live-IsOrdered rendered-IsOrdered
