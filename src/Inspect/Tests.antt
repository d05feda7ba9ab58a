-- ===== src/Inspect/Tests.antt =====
-- The spec of a live container.
use unraid.Text.Utf8.{prefix_bytes}
use unraid.Inspect.Translated.{short_id}
use unraid.Inspect.{network_of}
use unraid.Inspect.Translated.{hostname_of}
use unraid.Text.Numbers.{decimal}
use unraid.Inspect.Translated.{decimal_integer}
use unraid.Inspect.Translated.{live_restart}
use unraid.Order.{list_cmp}
use unraid.Map.{add_all}
use unraid.Inspect.{baked_env}
use unraid.Map.{contains_key}
use unraid.Text.{split_once}
use unraid.Text.{text_eq}
use unraid.Inspect.Live.{live_env}
use unraid.Map.{remove}
use unraid.Text.{trim_matches}
use unraid.Spec.{port_key}
use unraid.Map.{insert}
use unraid.Map.{add}
use unraid.Inspect.Live.{published}
use unraid.Inspect.Translated.{raw_spec}
use unraid.Spec.{normalized}
use unraid.Text.{codes}
use unraid.Inspect.Samples.{bare_image, bare_container}
use unraid.Inspect.Translated.{live_spec}
use unraid.Base.{refl, ◌≡◌, some, true, [], ◌∷◌}
use unraid.Order.{list_ord, nat_ord}

app_ports :
    (live_spec (bare_container (codes "app")) bare_image).0.ports ≡ (codes "8080:80/tcp", tt) ∷ []
unfolding live_spec normalized raw_spec published add insert port_key trim_matches
app_ports = refl

app_env :
    (live_spec (bare_container (codes "app")) bare_image).0.env ≡ (codes "MODE", codes "fast") ∷ []
unfolding live_spec normalized remove raw_spec live_env text_eq split_once contains_key baked_env
    add_all insert list_cmp
app_env = refl

app_restart :
    (live_spec (bare_container (codes "app")) bare_image).0.restart ≡ some (codes "on-failure:3")
unfolding live_spec normalized raw_spec live_restart text_eq decimal_integer decimal
app_restart = refl

app_hostname : (live_spec (bare_container (codes "app")) bare_image).0.hostname_is_default ≡ true
unfolding live_spec normalized raw_spec hostname_of text_eq network_of short_id prefix_bytes
app_hostname = refl
