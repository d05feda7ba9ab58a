-- ===== src/Privileged/Tests.antt =====
-- Callers on a server with a docker group.
use unraid.Map.{insert}
use unraid.Text.{trim_start_matches}
use unraid.Text.{text_eq}
use unraid.Order.{list_cmp}
use unraid.Map.{contains_key}
use unraid.Ownership.{volume_labels}
use unraid.Privileged.CopyInto.Receives.{copy_into_problem-MayReceive, MayReceive}
use unraid.Inspect.Samples.{with_volume, bare_container, anonymous_volume}
use unraid.Inspect.{ContainerInspect, VolumeInspect}
use unraid.Privileged.CopyInto.{not_mounted, not_labeled, used_by, copy_into_problem}
use unraid.Base.{[], ◌∷◌}
use unraid.Base.{ℕ}
use unraid.Privileged.Authorized.{authorize-Allowed, DockerMember}
use unraid.Adopt.{priv_read_vm_xml, priv_rebuild}
use unraid.Text.{codes, Text}
use unraid.Privileged.{policy, root_or_docker_group, root, may_not_run, caller_uid, authorize}
use unraid.Base.{◌⊎◌, ◌↔◌, refl, ◌≡◌, ◌++◌, ok, err}
use unraid.Order.{list_ord, nat_ord}
use unraid.Base.{none, some}

abbrev passwd : Text
passwd =
    codes "root:x:0:0::/root:/bin/sh\nada:x:1000:100::/home/ada:/bin/sh\n"
    ++ codes "bob:x:1001:281::/home/bob:/bin/sh\neve:x:1002:100:::\nbroken:x:10:x\n"

abbrev group : Text
group = codes "root:x:0:root\nusers:x:100:ada,eve\ndocker:x:281:mal, ada\n"

listed : authorize (priv_rebuild (codes "web")) 1000 passwd group ≡ ok tt
unfolding authorize
listed = refl

by_primary_group : authorize (priv_rebuild (codes "web")) 1001 passwd group ≡ ok tt
unfolding authorize
by_primary_group = refl

outsider :
    authorize (priv_rebuild (codes "web")) 1002 passwd group
    ≡ err (may_not_run 1002 root_or_docker_group)
unfolding authorize
outsider = refl

root_only :
    authorize (priv_read_vm_xml (codes "vm")) 1000 passwd group ≡ err (may_not_run 1000 root)
unfolding authorize
root_only = refl

overflowing_uid : caller_uid (some (codes "4294967296")) ≡ none
unfolding caller_uid
overflowing_uid = refl

own_uid : caller_uid (some (codes " 1000\n")) ≡ some 1000
unfolding caller_uid
own_uid = refl

abbrev ada : ℕ
ada = 1000

authorize-Allowed_example : (authorize (priv_rebuild (codes "web")) ada passwd group ≡ ok tt) ↔ (
    (ada ≡ 0)
    ⊎ ((policy (priv_rebuild (codes "web")) ≡ root_or_docker_group)
        × DockerMember ada passwd group))
authorize-Allowed_example = authorize-Allowed ada passwd group (priv_rebuild (codes "web"))

abbrev web : ContainerInspect
web = with_volume (bare_container (codes "web")) (codes "0a1b") (codes "/data")

abbrev old_volume : VolumeInspect
old_volume = anonymous_volume (codes "0a1b")

abbrev labeled_volume : Text → VolumeInspect
labeled_volume path = record (anonymous_volume (codes "web_data")) {
  labels = some (volume_labels (codes "web") path);
}

own_volume :
    copy_into_problem web old_volume (codes "web" ∷ []) (labeled_volume (codes "/data")) ≡ none
unfolding copy_into_problem contains_key list_cmp text_eq trim_start_matches insert
own_volume = refl

other_path :
    copy_into_problem web old_volume (codes "web" ∷ []) (labeled_volume (codes "/cache"))
    ≡ some (not_labeled (codes "web_data") (codes "web") (codes "/data"))
unfolding copy_into_problem contains_key list_cmp text_eq trim_start_matches insert
other_path = refl

shared_volume :
    copy_into_problem web old_volume
      (codes "web" ∷ codes "db" ∷ [])
      (labeled_volume (codes "/data"))
    ≡ some (used_by (codes "0a1b") (codes "web" ∷ codes "db" ∷ []) (codes "web"))
unfolding copy_into_problem contains_key list_cmp text_eq trim_start_matches
shared_volume = refl

foreign_volume :
    copy_into_problem
      (bare_container (codes "web"))
      old_volume
      (codes "web" ∷ [])
      (labeled_volume (codes "/data"))
    ≡ some (not_mounted (codes "web") (codes "0a1b"))
unfolding copy_into_problem contains_key list_cmp text_eq trim_start_matches
foreign_volume = refl

copy_into_problem-MayReceive_example :
    (copy_into_problem web old_volume (codes "web" ∷ []) (labeled_volume (codes "/data")) ≡ none)
    ↔ MayReceive web old_volume (codes "web" ∷ []) (labeled_volume (codes "/data"))
copy_into_problem-MayReceive_example =
    copy_into_problem-MayReceive web old_volume (codes "web" ∷ []) (labeled_volume (codes "/data"))
