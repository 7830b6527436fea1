-- ===== src/Kernel/Configurer/Defaults.antt =====
-- Lookups with and without a default, and lookups after configure.
use trik_runtime.Prelude.{
  ◌≡◌, refl, ap, ◌∙◌, false, Option, none, some, and_then, is_some, Bool-cases, inl, inr, List, [],
  ◌∷◌, if◌then◌else◌, list_eq, list_eq_refl,
}
use trik_runtime.Prelude.Maps.{lookup, insert, lookup-insert}
use trik_runtime.Text.{bytes_eq, Bytes}
use trik_runtime.Kernel.Xml.{value_or}
use trik_runtime.Kernel.Configurer.{
  Configurer, Device, DeviceType, ModelConfigurationElement, or_else, on_port, by_class,
  by_type_class, by_type, attribute, child_attribute, in_group, child_on, child_attribute_by_port,
  configured_on, attribute_by_port, configure, device_type_on, class_of,
}

-- A value that is found comes before the default, a missing one is replaced by it.
or_else-default :
    (v r r' : Option Bytes) (d : Bytes)
    → r' ≡ some (value_or d r)
    → or_else v r' ≡ some (value_or d (or_else v r))
or_else-default none r r' d h = h
or_else-default (some v) r r' d h = refl

module _ (c : Configurer) (port name d : Bytes) where
  by_class-default :
      (t : Bytes)
      → by_class c port t name (some d) ≡ some (value_or d (by_class c port t name none))
  by_class-default t = or_else-default _ none (some d) d refl

  by_type_class-default :
      (t : Bytes) (o : Option Device)
      → by_type_class c port t name (some d) o
        ≡ some (value_or d (by_type_class c port t name none o))
  by_type_class-default t none = refl
  by_type_class-default t (some device) =
      or_else-default (on_port port name device) _ _ d
        (elim (Bool-cases (is_some (lookup port device.port_specific_attributes))) [
          | inl q ↦ rw q (by_class-default t)
          | inr q ↦ rw q refl
        ])

  by_type-default :
      (t : Bytes) (o : Option DeviceType)
      → by_type c port t name (some d) o ≡ some (value_or d (by_type c port t name none o))
  by_type-default t none = by_class-default t
  by_type-default t (some u) =
      or_else-default (lookup name u.attributes) _ _ d
        (by_type_class-default t (lookup u.device_class c.devices))

  attribute-default :
      (t : Bytes)
      → attribute c port t name (some d) ≡ some (value_or d (attribute c port t name none))
  unfolding attribute
  attribute-default t = by_type-default t (lookup t c.device_types)

  configured_on-default :
      (o : Option ModelConfigurationElement)
      → configured_on c port name (some d) o ≡ some (value_or d (configured_on c port name none o))
  configured_on-default none = refl
  configured_on-default (some m) =
      or_else-default (lookup name m.attributes) _ _ d (attribute-default m.device_type)

  child_attribute-default :
      (child_class : Bytes) (children : List Bytes)
      → child_attribute c port child_class name (some d) children
        ≡ some (value_or d (child_attribute c port child_class name none children))
  unfolding child_attribute
  child_attribute-default child_class [] = refl
  child_attribute-default child_class (child ∷ rest) =
      elim (Bool-cases (list_eq (class_of child (lookup child c.device_types)) child_class)) [
        | inl q ↦ rw q (attribute-default child)
        | inr q ↦ rw q (child_attribute-default child_class rest)
      ]

  in_group-default :
      (child_class : Bytes) (o : Option (List Bytes))
      → in_group c port child_class name (some d) o
        ≡ some (value_or d (in_group c port child_class name none o))
  in_group-default child_class none = refl
  in_group-default child_class (some children) = child_attribute-default child_class children

  child_on-default :
      (child_class : Bytes) (o : Option ModelConfigurationElement)
      → child_on c port child_class name (some d) o
        ≡ some (value_or d (child_on c port child_class name none o))
  child_on-default child_class none = refl
  child_on-default child_class (some m) =
      in_group-default child_class (lookup m.device_type c.groups_devices)

  -- With a default a lookup by port or by child device does not throw: it gives the default exactly
  -- where it throws without one, and what it gives without one elsewhere.
  pub attribute_by_port-default :
      (child_class : Bytes)
      → (attribute_by_port c port name (some d)
          ≡ some (value_or d (attribute_by_port c port name none)))
        × (child_attribute_by_port c port child_class name (some d)
            ≡ some (value_or d (child_attribute_by_port c port child_class name none)))
  unfolding attribute_by_port child_attribute_by_port
  attribute_by_port-default child_class = (
    configured_on-default (lookup port c.model_configuration),
    child_on-default child_class (lookup port c.model_configuration),
  )

attribute-configure :
    (c : Configurer) (port device other type name : Bytes) (d : Option Bytes)
    → attribute (configure c port device) other type name d ≡ attribute c other type name d
unfolding attribute configure
attribute-configure c port device other type name d = refl

configured_on-configure :
    (c : Configurer) (port device other name : Bytes) (d : Option Bytes)
    (o : Option ModelConfigurationElement)
    → configured_on (configure c port device) other name d o ≡ configured_on c other name d o
configured_on-configure c port device other name d none = refl
configured_on-configure c port device other name d (some m) =
    ap (or_else (lookup name m.attributes))
      (attribute-configure c port device other m.device_type name d)

-- After configure the port has the device, and its attributes are those of the device on the port;
-- every other port is as it was.
pub configure_lem :
    (c : Configurer) (port device other name : Bytes) (d : Option Bytes)
    → list_eq port other ≡ false
    → let c' = configure c port device in
      (device_type_on c' port ≡ some device)
      × (attribute_by_port c' port name d ≡ attribute c port device name d)
      × (device_type_on c' other ≡ device_type_on c other)
      × (attribute_by_port c' other name d ≡ attribute_by_port c other name d)
unfolding configure device_type_on attribute_by_port
configure_lem c port device other name d h =
    let entry : ModelConfigurationElement = record {
      port = port;
      device_type = device;
      attributes = [];
    } in
    let own : lookup port (insert port entry c.model_configuration) ≡ some entry =
      lookup-insert port port entry c.model_configuration
      ∙ ap (λ b. if b then some entry else lookup port c.model_configuration) (list_eq_refl port) in
    let foreign : lookup other (insert port entry c.model_configuration)
        ≡ lookup other c.model_configuration =
      lookup-insert port other entry c.model_configuration
      ∙ ap (λ b. if b then some entry else lookup other c.model_configuration) h in
    let c' = configure c port device in
    (
      ap (λ o. and_then o (λ m. some m.device_type)) own,
      ap (configured_on c' port name d) own ∙ attribute-configure c port device port device name d,
      ap (λ o. and_then o (λ m. some m.device_type)) foreign,
      ap (configured_on c' other name d) foreign
          ∙ configured_on-configure c port device other name d (lookup other c.model_configuration),
    )
