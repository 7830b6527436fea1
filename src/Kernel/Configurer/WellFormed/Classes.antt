-- ===== src/Kernel/Configurer/WellFormed/Classes.antt =====
-- The classes of the devices that are configured.
use trik_runtime.Prelude.{
  ◌≡◌, true, Option, none, some, is_some, Option-cases, Bool-cases, inl, inr, List, [], ◌∷◌,
  list_eq, All, subst,
}
use trik_runtime.Prelude.Maps.{lookup}
use trik_runtime.Text.{bytes_eq, Bytes}
use trik_runtime.Kernel.Xml.{Node}
use trik_runtime.Kernel.Configurer.{
  Configurer, DeviceType, configure, device_class_on, device_type_on, class_or,
}
use trik_runtime.Kernel.Configurer.Parsing.{new}
use trik_runtime.Kernel.Configurer.WellFormed.{WellFormed}
use trik_runtime.Kernel.Configurer.WellFormed.Reading.{new-WellFormed}

-- A class that is listed, where there is one.
abbrev ClassListed : Configurer → Option Bytes → Type 0
ClassListed c none = Unit
ClassListed c (some k) = is_some (lookup k c.devices) ≡ true

abbrev TypeListed : Configurer → Option DeviceType → Type 0
TypeListed c none = Unit
TypeListed c (some t) = is_some (lookup t.device_class c.devices) ≡ true

lookup-TypeListed :
    (c : Configurer) (types : List (Bytes × DeviceType)) (k : Bytes)
    → All (λ e. is_some (lookup e.1.device_class c.devices) ≡ true) types
    → TypeListed c (lookup k types)
lookup-TypeListed c [] k h = tt
lookup-TypeListed c ((j, u) ∷ types) k h = elim (Bool-cases (list_eq j k)) [
  | inl q ↦ rw q h.0
  | inr q ↦ rw q (lookup-TypeListed c types k h.1)
]

class_or-ClassListed :
    (c : Configurer) (t : Bytes) (o : Option DeviceType)
    → TypeListed c o
    → ClassListed c (class_or c t o)
class_or-ClassListed c t (some u) h = h
class_or-ClassListed c t none h = elim (Bool-cases (is_some (lookup t c.devices))) [
  | inl q ↦ rw q q
  | inr q ↦ rw q tt
]

device_class_on-ClassListed :
    (c : Configurer) (port : Bytes) → WellFormed c → ClassListed c (device_class_on c port)
unfolding device_class_on
device_class_on-ClassListed c port w = elim (Option-cases (device_type_on c port)) [
  | inl e ↦ rw e tt
  | inr (t, e) ↦ rw e (
      class_or-ClassListed c t (lookup t c.device_types)
        (lookup-TypeListed c c.device_types t w.types))
]

configure-WellFormed :
    (c : Configurer) (port device : Bytes) → WellFormed c → WellFormed (configure c port device)
unfolding configure
configure-WellFormed c port device w = record {
  types = w.types;
  groups = w.groups;
  additional = w.additional;
}

-- The class of a device that is configured on a port, after the config files have been read and a
-- port has been configured anew, is listed in the system config, where deviceClass does not throw.
pub device_class_on-new :
    (system model : Node) (c : Configurer) (port device other k : Bytes)
    → new system model ≡ some c
    → device_class_on (configure c port device) other ≡ some k
    → is_some (lookup k c.devices) ≡ true
unfolding configure
device_class_on-new system model c port device other k h e =
    subst (ClassListed (configure c port device)) e (
      device_class_on-ClassListed (configure c port device) other
        (configure-WellFormed c port device (new-WellFormed system model c h)))
