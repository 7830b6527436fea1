-- ===== src/Kernel/Configurer.antt =====
-- trikKernel/src/configurer.cpp: what is configured, and where an attribute is looked for. `none` as
-- a result is a MalformedConfigException.
pub mod Parsing
pub mod Defaults
pub mod WellFormed
mod Tests
use trik_runtime.Prelude.{
  ℕ, ◌≡◌, Bool, true, false, Option, none, some, and_then, is_some, List, [], ◌∷◌, if◌then◌else◌,
  list_eq, not,
}
use trik_runtime.Prelude.Maps.{lookup, insert}
use trik_runtime.Text.{bytes_eq, Bytes}
use trik_runtime.Kernel.Xml.{Attributes}

pub record Device : Type 0 where
  pub name : Bytes
  pub attributes : Attributes
  pub port_specific_attributes : List (Bytes × Attributes)
  pub is_optional : Bool

pub record DeviceType : Type 0 where
  pub name : Bytes
  pub device_class : Bytes
  pub attributes : Attributes

pub record ModelConfigurationElement : Type 0 where
  pub port : Bytes
  pub device_type : Bytes
  pub attributes : Attributes

pub record Configurer : Type 0 where
  pub init_scripts : List Bytes
  pub devices : List (Bytes × Device)
  pub groups_devices : List (Bytes × List Bytes)
  pub device_types : List (Bytes × DeviceType)
  pub additional_configuration : List (Bytes × Device)
  pub model_configuration : List (Bytes × ModelConfigurationElement)
  pub additional_model_configuration : List (Bytes × Attributes)
  pub version : Bytes

-- hash.contains(a) && hash[a].attributes.contains(name) ? ... : the rest of the function.
abbrev pub or_else : Option Bytes → Option Bytes → Option Bytes
or_else none rest = rest
or_else (some v) rest = some v

abbrev pub device_attribute : Bytes → Option Device → Option Bytes
device_attribute name none = none
device_attribute name (some d) = lookup name d.attributes

abbrev pub lookup_in : Bytes → Option Attributes → Option Bytes
lookup_in name none = none
lookup_in name (some attributes) = lookup name attributes

unfoldable pub attribute_by_device : Configurer → Bytes → Bytes → Option Bytes
attribute_by_device c device_class name =
    or_else (lookup_in name (lookup device_class c.additional_model_configuration)) (
      or_else (device_attribute name (lookup device_class c.additional_configuration))
        (device_attribute name (lookup device_class c.devices)))

-- A device on a port: its attributes for the port come before its own.
abbrev pub on_port : Bytes → Bytes → Device → Option Bytes
on_port port name d =
    or_else (lookup_in name (lookup port d.port_specific_attributes)) (lookup name d.attributes)

abbrev pub on_port? : Bytes → Bytes → Option Device → Option Bytes
on_port? port name none = none
on_port? port name (some d) = on_port port name d

-- The second part of attribute: the type of the device is a class itself; `none` as a default throws.
abbrev pub by_class : Configurer → Bytes → Bytes → Bytes → Option Bytes → Option Bytes
by_class c port device_type name d = or_else (on_port? port name (lookup device_type c.devices)) d

-- The class of a device type, on a port.
abbrev pub by_type_class :
    Configurer → Bytes → Bytes → Bytes → Option Bytes → Option Device → Option Bytes
by_type_class c port device_type name d none = d
by_type_class c port device_type name d (some device) = or_else (on_port port name device) (
    if is_some (lookup port device.port_specific_attributes)
    then by_class c port device_type name d
    else d)

abbrev pub by_type :
    Configurer → Bytes → Bytes → Bytes → Option Bytes → Option DeviceType → Option Bytes
by_type c port device_type name d none = by_class c port device_type name d
by_type c port device_type name d (some t) =
    or_else (lookup name t.attributes)
      (by_type_class c port device_type name d (lookup t.device_class c.devices))

unfoldable pub attribute : Configurer → Bytes → Bytes → Bytes → Option Bytes → Option Bytes
attribute c port device_type name d =
    by_type c port device_type name d (lookup device_type c.device_types)

abbrev pub class_of : Bytes → Option DeviceType → Bytes
class_of device_type none = device_type
class_of device_type (some t) = t.device_class

-- The loop of childAttributeByPort.
unfoldable pub child_attribute :
    Configurer → Bytes → Bytes → Bytes → Option Bytes → List Bytes → Option Bytes
child_attribute c port child_class name d [] = d
child_attribute c port child_class name d (child ∷ rest) =
    let later = child_attribute c port child_class name d rest in
    if list_eq (class_of child (lookup child c.device_types)) child_class
    then attribute c port child name d
    else later

abbrev pub in_group :
    Configurer → Bytes → Bytes → Bytes → Option Bytes → Option (List Bytes) → Option Bytes
in_group c port child_class name d none = d
in_group c port child_class name d (some children) =
    child_attribute c port child_class name d children

abbrev pub child_on :
    Configurer
    → Bytes
    → Bytes
    → Bytes
    → Option Bytes
    → Option ModelConfigurationElement
    → Option Bytes
child_on c port child_class name d none = d
child_on c port child_class name d (some m) =
    in_group c port child_class name d (lookup m.device_type c.groups_devices)

unfoldable pub child_attribute_by_port :
    Configurer → Bytes → Bytes → Bytes → Option Bytes → Option Bytes
child_attribute_by_port c port child_class name d =
    child_on c port child_class name d (lookup port c.model_configuration)

abbrev pub configured_on :
    Configurer → Bytes → Bytes → Option Bytes → Option ModelConfigurationElement → Option Bytes
configured_on c port name d none = d
configured_on c port name d (some m) =
    or_else (lookup name m.attributes) (attribute c port m.device_type name d)

unfoldable pub attribute_by_port : Configurer → Bytes → Bytes → Option Bytes → Option Bytes
attribute_by_port c port name d = configured_on c port name d (lookup port c.model_configuration)

abbrev pub is_needed : Option Device → Bool
is_needed none = false
is_needed (some d) = not d.is_optional

unfoldable pub is_enabled : Configurer → Bytes → Bool
is_enabled c name =
    if is_some (lookup name c.additional_model_configuration)
    then true
    else is_needed (lookup name c.devices)

abbrev pub keys : List (Bytes × ModelConfigurationElement) → List Bytes
keys [] = []
keys ((k, m) ∷ rest) = k ∷ keys rest

unfoldable pub ports : Configurer → List Bytes
ports c = keys c.model_configuration

unfoldable pub device_type_on : Configurer → Bytes → Option Bytes
device_type_on c port = and_then (lookup port c.model_configuration) (λ m. some m.device_type)

abbrev pub class_or : Configurer → Bytes → Option DeviceType → Option Bytes
class_or c device_type none =
    if is_some (lookup device_type c.devices) then some device_type else none
class_or c device_type (some t) = some t.device_class

-- deviceClass.
unfoldable pub device_class_on : Configurer → Bytes → Option Bytes
device_class_on c port =
    and_then (device_type_on c port) (λ t. class_or c t (lookup t c.device_types))

unfoldable pub configure : Configurer → Bytes → Bytes → Configurer
configure c port device = record c {
  model_configuration =
      insert port (record { port = port; device_type = device; attributes = [] })
        c.model_configuration;
}
