-- ===== src/Kernel/Configurer/WellFormed.antt =====
-- What holds of a configuration that has been read: the changes that the parsers make.
pub mod Reading
pub mod Classes
use trik_runtime.Prelude.{
  ℕ, ◌≡◌, refl, ap, sym, ◌∙◌, Bool, true, false, Option, none, some, and_then, is_some,
  Option-cases, Bool-cases, inl, inr, List, [], ◌∷◌, ◌++◌, if◌then◌else◌, list_eq, Eq, All, All-map,
  arith, not, is_empty, ◌||◌, subst,
}
use trik_runtime.Prelude.Maps.{lookup, insert, lookup-insert, is_some-insert, All-insert}
use trik_runtime.Text.{bytes_eq, Bytes, codes}
use trik_runtime.Kernel.Xml.{
  Attributes, Node, child_nodes, tag_name, is_element, attribute_or, elements_by_tag_name,
}
use trik_runtime.Kernel.Configurer.{
  Configurer, Device, DeviceType, ModelConfigurationElement, configure, device_class_on,
  device_type_on, class_or,
}
use trik_runtime.Kernel.Configurer.Parsing.{
  empty, each, parse_device_class, parse_device_classes, parse_device_port, parse_device_ports,
  parse_device_type, parse_device_types, is_listed, has_tag, child_list,
  parse_device_class_child_list, tags, parse_groups, parse_device_groups, parse_init_script,
  is_section, parse_additional, parse_additional_configurations, parse_port, parse_additional_model,
  parse_model_element, parse_model_config, only, parse_section, new,
}

abbrev pub IsListed : Configurer → Bytes → Type 0
IsListed c name = is_listed c name ≡ true

-- The classes of the device types, the members of the groups and the devices that the model config
-- turns on are listed in the system config.
pub record WellFormed (c : Configurer) : Type 0 where
  pub types : All (λ e. is_some (lookup e.1.device_class c.devices) ≡ true) c.device_types
  pub groups : All (λ e. All (IsListed c) e.1) c.groups_devices
  pub additional : All (λ e. is_some (lookup e.0 c.devices) ≡ true) c.additional_model_configuration

-- The result of a step, where it is no exception.
abbrev pub Good : Option Configurer → Type 0
Good none = Unit
Good (some c) = WellFormed c

pub and_then-Good :
    (o : Option Configurer) (f : Configurer → Option Configurer)
    → Good o
    → ((c : Configurer) → WellFormed c → Good (f c))
    → Good (and_then o f)
and_then-Good none f g h = tt
and_then-Good (some c) f g h = h c g

pub if-Good :
    (b : Bool) (x y : Option Configurer)
    → (b ≡ true → Good x)
    → (b ≡ false → Good y)
    → Good (if b then x else y)
if-Good true x y h k = h refl
if-Good false x y h k = k refl

pub each-Good :
    (f : Configurer → Node → Option Configurer)
    → ((c : Configurer) (n : Node) → WellFormed c → Good (f c n))
    → (ns : List Node) (c : Configurer) → WellFormed c
    → Good (each f c ns)
each-Good f h [] c w = w
each-Good f h (n ∷ ns) c w =
    and_then-Good (if is_element n then f c n else some c) (λ c'. each f c' ns)
      (if-Good (is_element n) (f c n) (some c) (λ q. h c n w) (λ q. w))
      (λ c' w'. each-Good f h ns c' w')

or_left : (a b a' : Bool) → (a || b) ≡ true → (a ≡ true → a' ≡ true) → (a' || b) ≡ true
or_left true b a' h f = rw (f refl) refl
or_left false b true h f = refl
or_left false b false h f = h

or_right : (a b b' : Bool) → (a || b) ≡ true → (b ≡ true → b' ≡ true) → (a || b') ≡ true
or_right true b b' h f = refl
or_right false b b' h f = f h

-- The changes that the parsers make.
devices-WellFormed :
    (c : Configurer) (k : Bytes) (v : Device)
    → WellFormed c
    → WellFormed (record c { devices = insert k v c.devices })
devices-WellFormed c k v w =
    let c' = record c { devices = insert k v c.devices } in
    let grows : (j : Bytes)
        → is_some (lookup j c.devices) ≡ true
        → is_some (lookup j c'.devices) ≡ true =
      λ j. is_some-insert k j v c.devices in
    let lists : (j : Bytes) → IsListed c j → IsListed c' j =
      λ j h. or_right (is_some (lookup j c.device_types)) _ _ h (grows j) in
    record {
      types = All-map _ _ c.device_types (λ e. grows e.1.device_class) w.types;
      groups =
          All-map _ _ c.groups_devices (λ e. All-map (IsListed c) (IsListed c') e.1 lists) w.groups;
      additional = All-map _ _ c.additional_model_configuration (λ e. grows e.0) w.additional;
    }

types-WellFormed :
    (c : Configurer) (k : Bytes) (t : DeviceType)
    → is_some (lookup t.device_class c.devices) ≡ true
    → WellFormed c
    → WellFormed (record c { device_types = insert k t c.device_types })
types-WellFormed c k t h w =
    let c' = record c { device_types = insert k t c.device_types } in
    let lists : (j : Bytes) → IsListed c j → IsListed c' j = λ j q.
      or_left (is_some (lookup j c.device_types)) _ _ q (is_some-insert k j t c.device_types) in
    record {
      types =
          All-insert (λ e. is_some (lookup e.1.device_class c.devices) ≡ true) k t c.device_types h
            w.types;
      groups =
          All-map _ _ c.groups_devices (λ e. All-map (IsListed c) (IsListed c') e.1 lists) w.groups;
      additional = w.additional;
    }

pub parse_device_class-Good :
    (c : Configurer) (n : Node) → WellFormed c → Good (parse_device_class c n)
parse_device_class-Good c n w = devices-WellFormed c (tag_name n) _ w

pub parse_device_port-Good :
    (c : Configurer) (n : Node) → WellFormed c → Good (parse_device_port c n)
parse_device_port-Good c n w = elim (Option-cases (lookup (tag_name n) c.devices)) [
  | inl e ↦ rw e tt
  | inr (d, e) ↦ rw e (
      if-Good (is_empty (attribute_or (codes "port") [] n)) none _ (λ q. tt)
        (λ q. devices-WellFormed c (tag_name n) _ w))
]

pub parse_device_type-Good :
    (c : Configurer) (n : Node) → WellFormed c → Good (parse_device_type c n)
parse_device_type-Good c n w =
    let device_class = attribute_or (codes "class") [] n in
    if-Good (is_empty device_class) none _ (λ q. tt)
      (λ q.
        if-Good (not (is_some (lookup device_class c.devices))) none _ (λ r. tt)
          (λ r. types-WellFormed c (tag_name n) _ (ground arith) w))
