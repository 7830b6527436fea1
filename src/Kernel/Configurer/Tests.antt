-- ===== src/Kernel/Configurer/Tests.antt =====
-- A robot with a motor on a port, a sensor type and a group.
use trik_runtime.Prelude.{◌≡◌, refl, true, Option, none, some, is_some, [], ◌∷◌}
use trik_runtime.Prelude.Maps.{lookup}
use trik_runtime.Text.{bytes_eq, Bytes, codes}
use trik_runtime.Kernel.Xml.{
  Attributes, Node, Nodes, element, other, nil, cons, value_or, elements_by_tag_name, named_within,
}
use trik_runtime.Kernel.Configurer.{
  Configurer, attribute, attribute_by_port, child_attribute_by_port, configure, device_type_on,
  device_class_on,
}
use trik_runtime.Kernel.Configurer.Parsing.{
  empty, new, parse_section, parse_device_classes, parse_device_ports, parse_device_types,
  parse_device_groups, parse_device_class_child_list, child_list, parse_init_script,
  parse_additional_configurations, parse_model_config, parse_model_element,
}
use trik_runtime.Kernel.Configurer.Defaults.{attribute_by_port-default}
use trik_runtime.Kernel.Configurer.WellFormed.{WellFormed}
use trik_runtime.Kernel.Configurer.WellFormed.Reading.{new-WellFormed}
use trik_runtime.Kernel.Configurer.WellFormed.Classes.{device_class_on-new}

abbrev tag : Bytes → Attributes → Nodes → Node
tag name attributes children = element name attributes [] children

abbrev system : Node
system = tag (codes "config") ((codes "version", codes "model-2015") ∷ []) (
    cons (tag (codes "initScript") [] nil) (
      cons
        (tag (codes "deviceClasses") [] (
          cons (tag (codes "servo") ((codes "min", codes "1") ∷ []) nil)
            (cons other (cons (tag (codes "led") [] nil) nil))))
        (cons
          (tag (codes "devicePorts") []
            (cons (tag (codes "servo") ((codes "port", codes "S1") ∷ []) nil) nil))
          (cons
            (tag (codes "deviceTypes") []
              (cons (tag (codes "angular") ((codes "class", codes "servo") ∷ []) nil) nil))
            (cons (tag (codes "deviceGroups") [] nil) nil)))))

abbrev model : Node
model = tag (codes "config") [] (
    cons (tag (codes "S1") [] (cons (tag (codes "angular") [] nil) nil))
      (cons (tag (codes "led") [] nil) nil))

abbrev or_empty : Option Configurer → Configurer
or_empty none = empty
or_empty (some c) = c

abbrev robot : Configurer
robot = or_empty (new system model)

read_run : new system model ≡ some robot
unfolding new parse_section elements_by_tag_name named_within parse_device_classes
    parse_device_ports parse_device_types parse_device_groups parse_device_class_child_list
    child_list parse_init_script parse_additional_configurations parse_model_config
    parse_model_element
read_run = refl

robot_run :
    (attribute_by_port robot (codes "S1") (codes "min") none ≡ some (codes "1"))
    × (device_class_on robot (codes "S1") ≡ some (codes "servo"))
unfolding new parse_section elements_by_tag_name named_within parse_device_classes
    parse_device_ports parse_device_types parse_device_groups parse_device_class_child_list
    child_list parse_init_script parse_additional_configurations parse_model_config
    parse_model_element attribute_by_port attribute device_class_on device_type_on
robot_run = (refl, refl)

new-WellFormed_example : WellFormed robot
new-WellFormed_example = new-WellFormed system model robot read_run

attribute_by_port-default_example :
    (attribute_by_port robot (codes "S1") (codes "max") (some (codes "9"))
      ≡ some (value_or (codes "9") (attribute_by_port robot (codes "S1") (codes "max") none)))
    × (child_attribute_by_port robot (codes "S1") (codes "led") (codes "max") (some (codes "9"))
        ≡ some (
            value_or
              (codes "9")
              (child_attribute_by_port robot (codes "S1") (codes "led") (codes "max") none)))
attribute_by_port-default_example =
    attribute_by_port-default robot (codes "S1") (codes "max") (codes "9") (codes "led")

class_run :
    device_class_on (configure robot (codes "S2") (codes "angular")) (codes "S2")
    ≡ some (codes "servo")
unfolding new parse_section elements_by_tag_name named_within parse_device_classes
    parse_device_ports parse_device_types parse_device_groups parse_device_class_child_list
    child_list parse_init_script parse_additional_configurations parse_model_config
    parse_model_element device_class_on device_type_on configure
class_run = refl

device_class_on-new_example : is_some (lookup (codes "servo") robot.devices) ≡ true
device_class_on-new_example =
    device_class_on-new system model robot (codes "S2") (codes "angular") (codes "S2")
      (codes "servo") read_run class_run
