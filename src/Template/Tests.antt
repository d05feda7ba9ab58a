-- ===== src/Template/Tests.antt =====
-- Templates and their text.
use unraid.Shell.{is_safe}
use unraid.Shell.{shell_quote}
use unraid.Template.{pair_params}
use unraid.Text.{text_eq}
use unraid.Template.{tmpfs_params}
use unraid.Template.{plain_params}
use unraid.Template.{mount_params}
use unraid.Template.{port_flags}
use unraid.Text.{join}
use unraid.Text.{starts_with}
use unraid.Text.{trim}
use unraid.Template.RoundTrip.{xml_unescape-xml_escape}
use unraid.Text.{codes}
use unraid.Template.{from_spec}
use unraid.Spec.{default_spec, RunSpec}
use unraid.Template.Xml.{escape_char, extract_icon, xml_escape, xml_unescape}
use unraid.Base.{refl, ◌≡◌, some, [], ◌∷◌}
use unraid.Order.{list_ord, nat_ord}

escaped : xml_escape (codes "a<b & \"c\"") ≡ codes "a&lt;b &amp; &quot;c&quot;"
unfolding xml_escape escape_char
escaped = refl

xml_unescape-xml_escape_example :
    xml_unescape (xml_escape (codes "a<b &lt; 'c'")) ≡ codes "a<b &lt; 'c'"
xml_unescape-xml_escape_example = xml_unescape-xml_escape (codes "a<b &lt; 'c'")

found_icon :
    extract_icon (codes "<C><Icon> https://x/a.png </Icon></C>") ≡ some (codes "https://x/a.png")
unfolding extract_icon trim xml_unescape starts_with
found_icon = refl

abbrev app : RunSpec
app = record default_spec {
  name = codes "app";
  image = codes "app:latest";
  ports = (codes "8080:80/tcp", tt) ∷ [];
  restart = some (codes "always");
  pids_limit = some 2048;
}

app_params : (from_spec app [] []).extra_params ≡ codes "--log-driver '' --restart always"
unfolding from_spec join port_flags mount_params plain_params tmpfs_params text_eq pair_params
    shell_quote is_safe
app_params = refl
