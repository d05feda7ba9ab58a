-- ===== src/Template/Render.antt =====
-- src/docker_adopt/template.rs: `render`, the template as XML.
use unraid.Template.Xml.{replace, xml_escape}
use unraid.Template.{path, port, Template, TemplateConfig, variable, ConfigKind}
use unraid.Text.{is_empty, codes, Text}
use unraid.Base.{◌&&◌, List, ◌++◌, if◌then◌else◌, Bool, true, false, [], ◌∷◌}
use unraid.Order.{list_ord, nat_ord}

abbrev pub managed_marker : Text
managed_marker = codes "<!-- managed-by: orca -->"

abbrev kind_name : ConfigKind → Text
kind_name port = codes "Port"
kind_name path = codes "Path"
kind_name variable = codes "Variable"

-- The closure `el`.
unfoldable pub element : Text → Text → Text
unfolding xml_escape
element tag val =
    if is_empty val
    then codes "  <" ++ (tag ++ codes "/>\n")
    else codes "  <" ++ (tag ++ (b'>' ∷ (xml_escape val ++ (codes "</" ++ (tag ++ codes ">\n")))))

abbrev decoded_twice : Text → Text
decoded_twice t = replace (codes "&") (codes "&amp;") t

abbrev bool_word : Bool → Text
bool_word true = codes "true"
bool_word false = codes "false"

abbrev is_variable : ConfigKind → Bool
is_variable variable = true
is_variable _ = false

abbrev attribute : Text → Text → Text
attribute key value = b' ' ∷ (key ++ (codes "=\"" ++ (value ++ codes "\"")))

-- `is_secret_key` of redact.rs is an argument.
unfoldable pub config_element : (Text → Bool) → TemplateConfig → Text
unfolding xml_escape
config_element is_secret_key c =
    codes "  <Config"
    ++ (attribute (codes "Name") (xml_escape c.name)
        ++ (attribute (codes "Target") (xml_escape c.target)
            ++ (attribute (codes "Default") (xml_escape c.value)
                ++ (attribute (codes "Mode") (xml_escape c.mode)
                    ++ (attribute (codes "Description") []
                        ++ (attribute (codes "Type") (kind_name c.kind)
                            ++ (attribute (codes "Display") (codes "always")
                                ++ (attribute (codes "Required") (codes "false")
                                    ++ (attribute (codes "Mask")
                                          (bool_word (is_variable c.kind && is_secret_key c.target))
                                        ++ (b'>'
                                            ∷ (xml_escape c.value ++ codes "</Config>\n")))))))))))

unfoldable pub config_elements : (Text → Bool) → List TemplateConfig → Text
config_elements secret [] = []
config_elements secret (c ∷ cs) = config_element secret c ++ config_elements secret cs

unfoldable pub render : (Text → Bool) → Template → Text
render secret t =
    codes "<?xml version=\"1.0\"?>\n<Container version=\"2\">\n"
    ++ (codes "  "
        ++ (managed_marker
            ++ (codes "\n"
                ++ (element (codes "Name") t.name
                    ++ (element (codes "Repository") t.repository
                        ++ (element (codes "Registry") []
                            ++ (element (codes "Network") t.network
                                ++ (element (codes "Privileged") (bool_word t.privileged)
                                    ++ (element (codes "Support") []
                                        ++ (element (codes "Project") []
                                            ++ (element (codes "Overview") []
                                                ++ (element (codes "Category") []
                                                    ++ (element (codes "WebUI") []
                                                        ++ (element (codes "Icon") t.icon
                                                            ++ (element (codes "ExtraParams")
                                                            (decoded_twice t.extra_params)
                                                            ++ (element (codes "PostArgs")
                                                            (decoded_twice t.post_args)
                                                            ++ (config_elements secret t.configs
                                                            ++ codes
                                                            "</Container>\n")))))))))))))))))
