-- ===== src/Kernel/Configurer/Parsing.antt =====
-- trikKernel/src/configurer.cpp: how the two config files are read.
use trik_runtime.Prelude.{
  Bool, true, false, Option, none, some, and_then, is_some, List, [], ◌∷◌, ◌++◌, if◌then◌else◌,
  list_eq, not, is_empty, ◌||◌,
}
use trik_runtime.Prelude.Maps.{lookup, insert}
use trik_runtime.Text.{bytes_eq, Bytes, codes}
use trik_runtime.Kernel.Xml.{
  Attributes, Node, child_nodes, tag_name, attributes_of, text_of, is_element, attribute_or,
  insert_attributes, elements_by_tag_name,
}
use trik_runtime.Kernel.Configurer.{Device, Configurer}

-- A configurer before anything is read.
abbrev pub empty : Configurer
empty = record {
  init_scripts = [];
  devices = [];
  groups_devices = [];
  device_types = [];
  additional_configuration = [];
  model_configuration = [];
  additional_model_configuration = [];
  version = [];
}

-- The loops over the child nodes that are elements.
abbrev pub each :
    (Configurer → Node → Option Configurer) → Configurer → List Node → Option Configurer
each f c [] = some c
each f c (n ∷ ns) = and_then (if is_element n then f c n else some c) (λ c'. each f c' ns)

abbrev pub device_of : Node → Device
device_of n = record {
  name = tag_name n;
  attributes = insert_attributes (attributes_of n) [];
  port_specific_attributes = [];
  is_optional = list_eq (attribute_or (codes "optional") (codes "false") n) (codes "true");
}

abbrev pub parse_device_class : Configurer → Node → Option Configurer
parse_device_class c n = some (record c { devices = insert (tag_name n) (device_of n) c.devices })

unfoldable pub parse_device_classes : Configurer → Node → Option Configurer
parse_device_classes c section = each parse_device_class c (child_nodes section)

abbrev pub attributes_or_none : Option Attributes → Attributes
attributes_or_none none = []
attributes_or_none (some a) = a

abbrev pub with_port : Bytes → Attributes → Device → Device
with_port port new d = record d {
  port_specific_attributes =
      insert port
        (insert_attributes new (attributes_or_none (lookup port d.port_specific_attributes)))
        d.port_specific_attributes;
}

abbrev pub parse_device_port : Configurer → Node → Option Configurer
parse_device_port c n =
    let port = attribute_or (codes "port") [] n in
    and_then (lookup (tag_name n) c.devices) (λ d.
      if is_empty port
      then none
      else some (record c {
        devices = insert (tag_name n) (with_port port (attributes_of n) d) c.devices;
      }))

unfoldable pub parse_device_ports : Configurer → Node → Option Configurer
parse_device_ports c section = each parse_device_port c (child_nodes section)

abbrev pub parse_device_type : Configurer → Node → Option Configurer
parse_device_type c n =
    let device_class = attribute_or (codes "class") [] n in
    if is_empty device_class
    then none
    else if not (is_some (lookup device_class c.devices))
    then none
    else some (record c {
      device_types =
          insert (tag_name n)
            (record {
              name = tag_name n;
              device_class = device_class;
              attributes = insert_attributes (attributes_of n) [];
            })
            c.device_types;
    })

unfoldable pub parse_device_types : Configurer → Node → Option Configurer
parse_device_types c section = each parse_device_type c (child_nodes section)

abbrev pub is_listed : Configurer → Bytes → Bool
is_listed c name = is_some (lookup name c.device_types) || is_some (lookup name c.devices)

abbrev pub has_tag : Bytes → List Node → Bool
has_tag tag [] = false
has_tag tag (n ∷ ns) = if list_eq (tag_name n) tag then true else has_tag tag ns

-- parseDeviceClassChildList, with the elements that have been listed before.
unfoldable pub child_list : Configurer → List Node → List Node → Option (List Node)
child_list c before [] = some before
child_list c before (n ∷ ns) =
    let skipped = child_list c before ns in
    let listed = child_list c (before ++ (n ∷ [])) ns in
    if not (is_element n)
    then skipped
    else if not (is_listed c (tag_name n))
    then none
    else if has_tag (tag_name n) before
    then none
    else listed

unfoldable pub parse_device_class_child_list : Configurer → Node → Option (List Node)
parse_device_class_child_list c n = child_list c [] (child_nodes n)

abbrev pub tags : List Node → List Bytes
tags [] = []
tags (n ∷ ns) = tag_name n ∷ tags ns

abbrev pub parse_groups : Configurer → List Node → Option Configurer
parse_groups c [] = some c
parse_groups c (n ∷ ns) = and_then (parse_device_class_child_list c n) (λ children.
    parse_groups
      (record c { groups_devices = insert (tag_name n) (tags children) c.groups_devices }) ns)

unfoldable pub parse_device_groups : Configurer → Node → Option Configurer
parse_device_groups c section = and_then (parse_device_class_child_list c section) (parse_groups c)

unfoldable pub parse_init_script : Configurer → Node → Option Configurer
parse_init_script c n = some (record c { init_scripts = c.init_scripts ++ (text_of n ∷ []) })

abbrev pub is_section : Bytes → Bool
is_section tag =
    list_eq tag (codes "initScript")
    || list_eq tag (codes "deviceClasses")
    || list_eq tag (codes "devicePorts")
    || list_eq tag (codes "deviceTypes")

abbrev pub additional_device_of : Node → Device
additional_device_of n = record {
  name = tag_name n;
  attributes = insert_attributes (attributes_of n) [];
  port_specific_attributes = [];
  is_optional = false;
}

abbrev pub parse_additional : Configurer → Node → Option Configurer
parse_additional c n =
    if is_section (tag_name n)
    then some c
    else some (record c {
      additional_configuration =
          insert (tag_name n) (additional_device_of n) c.additional_configuration;
    })

unfoldable pub parse_additional_configurations : Configurer → Node → Option Configurer
parse_additional_configurations c root = each parse_additional c (child_nodes root)

abbrev pub parse_port : Configurer → Bytes → List Node → Option Configurer
parse_port c port (device ∷ []) =
    if is_element device
    then some (record c {
      model_configuration =
          insert port
            (record {
              port = port;
              device_type = tag_name device;
              attributes = insert_attributes (attributes_of device) [];
            })
            c.model_configuration;
    })
    else some c
parse_port c port _ = none

abbrev pub parse_additional_model : Configurer → Node → Option Configurer
parse_additional_model c n =
    if not (is_some (lookup (tag_name n) c.devices))
    then none
    else if list_eq (attribute_or (codes "disabled") (codes "false") n) (codes "false")
    then some (record c {
      additional_model_configuration =
          insert (tag_name n) (insert_attributes (attributes_of n) [])
            c.additional_model_configuration;
    })
    else some c

unfoldable pub parse_model_element : Configurer → Node → Option Configurer
parse_model_element c n =
    if list_eq (tag_name n) (codes "initScript")
    then parse_init_script c n
    else if is_empty (child_nodes n)
    then parse_additional_model c n
    else parse_port c (tag_name n) (child_nodes n)

unfoldable pub parse_model_config : Configurer → Node → Option Configurer
parse_model_config c root = each parse_model_element c (child_nodes root)

-- parseSection: the section must be there exactly once.
abbrev pub only :
    (Configurer → Node → Option Configurer) → Configurer → List Node → Option Configurer
only action c (n ∷ []) = action c n
only action c _ = none

unfoldable pub parse_section :
    Node → Bytes → (Configurer → Node → Option Configurer) → Configurer → Option Configurer
parse_section root name action c = only action c (elements_by_tag_name name root)

-- The constructor, for the root elements of the system config and of the model config.
unfoldable pub new : Node → Node → Option Configurer
new system model =
    if not (list_eq (tag_name system) (codes "config"))
    then none
    else and_then
        (parse_section system (codes "deviceClasses") parse_device_classes
          (record empty { version = attribute_or (codes "version") [] system }))
        (λ c1. and_then (parse_section system (codes "devicePorts") parse_device_ports c1) (λ c2.
          and_then (parse_section system (codes "deviceTypes") parse_device_types c2) (λ c3.
            and_then (parse_section system (codes "deviceGroups") parse_device_groups c3) (λ c4.
              and_then (parse_section system (codes "initScript") parse_init_script c4) (λ c5.
                and_then (parse_additional_configurations c5 system)
                  (λ c6. parse_model_config c6 model))))))
