-- ===== src/Kernel/Configurer/WellFormed/Reading.antt =====
-- The config files give a well-formed configuration.
use trik_runtime.Prelude.{
  ◌≡◌, true, Option, none, some, is_some, Option-cases, Bool-cases, inl, inr, List, [], ◌∷◌, ◌++◌,
  list_eq, All, arith, not, is_empty, subst,
}
use trik_runtime.Prelude.Maps.{lookup, insert, All-insert}
use trik_runtime.Text.{bytes_eq, Bytes, codes}
use trik_runtime.Kernel.Xml.{
  Node, child_nodes, tag_name, is_element, attribute_or, elements_by_tag_name,
}
use trik_runtime.Kernel.Configurer.{Configurer}
use trik_runtime.Kernel.Configurer.Parsing.{
  empty, parse_device_classes, parse_device_ports, parse_device_types, is_listed, has_tag,
  child_list, parse_device_class_child_list, tags, parse_groups, parse_device_groups,
  parse_init_script, is_section, parse_additional, parse_additional_configurations, parse_port,
  parse_additional_model, parse_model_element, parse_model_config, only, parse_section, new,
}
use trik_runtime.Kernel.Configurer.WellFormed.{
  IsListed, WellFormed, Good, and_then-Good, if-Good, each-Good, parse_device_class-Good,
  parse_device_port-Good, parse_device_type-Good,
}

-- The elements that a child list gives are listed.
abbrev AreListed : Configurer → Option (List Node) → Type 0
AreListed c none = Unit
AreListed c (some ns) = All (IsListed c) (tags ns)

tags-append :
    (c : Configurer) (xs : List Node) (n : Node)
    → All (IsListed c) (tags xs)
    → IsListed c (tag_name n)
    → All (IsListed c) (tags (xs ++ (n ∷ [])))
tags-append c [] n h l = (l, tt)
tags-append c (x ∷ xs) n h l = (h.0, tags-append c xs n h.1 l)

child_list-AreListed :
    (c : Configurer) (before ns : List Node)
    → All (IsListed c) (tags before)
    → AreListed c (child_list c before ns)
unfolding child_list
child_list-AreListed c before [] h = h
child_list-AreListed c before (n ∷ ns) h = elim (Bool-cases (not (is_element n))) [
  | inl q ↦ rw q (child_list-AreListed c before ns h)
  | inr q ↦ elim (Bool-cases (is_listed c (tag_name n))) [
    | inl l ↦ elim (Bool-cases (has_tag (tag_name n) before)) [
      | inl t ↦ rw (q, l, t) tt
      | inr t ↦
          rw (q, l, t) (child_list-AreListed c (before ++ (n ∷ [])) ns (tags-append c before n h l))
    ]
    | inr l ↦ rw (q, l) tt
  ]
]

groups-WellFormed :
    (c : Configurer) (k : Bytes) (names : List Bytes)
    → All (IsListed c) names
    → WellFormed c
    → WellFormed (record c { groups_devices = insert k names c.groups_devices })
groups-WellFormed c k names h w = record {
  types = w.types;
  groups = All-insert (λ e. All (IsListed c) e.1) k names c.groups_devices h w.groups;
  additional = w.additional;
}

parse_device_class_child_list-AreListed :
    (c : Configurer) (n : Node) → AreListed c (parse_device_class_child_list c n)
unfolding parse_device_class_child_list
parse_device_class_child_list-AreListed c n = child_list-AreListed c [] (child_nodes n) tt

parse_groups-Good : (ns : List Node) (c : Configurer) → WellFormed c → Good (parse_groups c ns)
parse_groups-Good [] c w = w
parse_groups-Good (n ∷ ns) c w = elim (Option-cases (parse_device_class_child_list c n)) [
  | inl e ↦ rw e tt
  | inr (children, e) ↦ rw e (
      parse_groups-Good ns _ (
        groups-WellFormed c (tag_name n) (tags children)
          (subst (AreListed c) e (parse_device_class_child_list-AreListed c n)) w))
]

parse_additional-Good : (c : Configurer) (n : Node) → WellFormed c → Good (parse_additional c n)
parse_additional-Good c n w =
    if-Good (is_section (tag_name n)) (some c) _ (λ q. w)
      (λ q. record { types = w.types; groups = w.groups; additional = w.additional })

parse_port-Good :
    (c : Configurer) (port : Bytes) (ns : List Node) → WellFormed c → Good (parse_port c port ns)
parse_port-Good c port [] w = tt
parse_port-Good c port (a ∷ b ∷ ns) w = tt
parse_port-Good c port (n ∷ []) w =
    if-Good (is_element n) _ (some c)
      (λ q. record { types = w.types; groups = w.groups; additional = w.additional }) (λ q. w)

parse_additional_model-Good :
    (c : Configurer) (n : Node) → WellFormed c → Good (parse_additional_model c n)
parse_additional_model-Good c n w =
    if-Good (not (is_some (lookup (tag_name n) c.devices))) none _ (λ q. tt)
      (λ q.
        if-Good (list_eq (attribute_or (codes "disabled") (codes "false") n) (codes "false")) _
          (some c)
          (λ r. record {
            types = w.types;
            groups = w.groups;
            additional =
                All-insert (λ e. is_some (lookup e.0 c.devices) ≡ true) (tag_name n) _
                  c.additional_model_configuration (ground arith) w.additional;
          })
          (λ r. w))

parse_init_script-Good : (c : Configurer) (n : Node) → WellFormed c → Good (parse_init_script c n)
unfolding parse_init_script
parse_init_script-Good c n w = record {
  types = w.types;
  groups = w.groups;
  additional = w.additional;
}

parse_model_element-Good :
    (c : Configurer) (n : Node) → WellFormed c → Good (parse_model_element c n)
unfolding parse_model_element
parse_model_element-Good c n w =
    if-Good (list_eq (tag_name n) (codes "initScript")) _ _ (λ q. parse_init_script-Good c n w)
      (λ q.
        if-Good (is_empty (child_nodes n)) _ _ (λ r. parse_additional_model-Good c n w)
          (λ r. parse_port-Good c (tag_name n) (child_nodes n) w))

parse_device_groups-Good :
    (c : Configurer) (n : Node) → WellFormed c → Good (parse_device_groups c n)
unfolding parse_device_groups
parse_device_groups-Good c n w = elim (Option-cases (parse_device_class_child_list c n)) [
  | inl e ↦ rw e tt
  | inr (groups, e) ↦ rw e (parse_groups-Good groups c w)
]

empty-WellFormed : (version : Bytes) → WellFormed (record empty { version = version })
empty-WellFormed version = record { types = tt; groups = tt; additional = tt }

only-Good :
    (f : Configurer → Node → Option Configurer)
    → ((c : Configurer) (n : Node) → WellFormed c → Good (f c n))
    → (c : Configurer) (ns : List Node) → WellFormed c
    → Good (only f c ns)
only-Good f h c [] w = tt
only-Good f h c (n ∷ []) w = h c n w
only-Good f h c (a ∷ b ∷ ns) w = tt

parse_section-Good :
    (root : Node) (name : Bytes) (f : Configurer → Node → Option Configurer)
    → ((c : Configurer) (n : Node) → WellFormed c → Good (f c n))
    → (c : Configurer) → WellFormed c
    → Good (parse_section root name f c)
unfolding parse_section
parse_section-Good root name f h c w = only-Good f h c (elements_by_tag_name name root) w

new-Good : (system model : Node) → Good (new system model)
unfolding new parse_device_classes parse_device_ports parse_device_types parse_device_groups
    parse_additional_configurations parse_model_config
new-Good system model =
    if-Good (not (list_eq (tag_name system) (codes "config"))) none _ (λ q. tt)
      (λ q.
        and_then-Good _ _
          (parse_section-Good system _ parse_device_classes
            (λ c n. each-Good _ parse_device_class-Good (child_nodes n) c) _ (empty-WellFormed _))
          (λ c1 w1.
            and_then-Good _ _
              (parse_section-Good system _ parse_device_ports
                (λ c n. each-Good _ parse_device_port-Good (child_nodes n) c) c1 w1)
              (λ c2 w2.
                and_then-Good _ _
                  (parse_section-Good system _ parse_device_types
                    (λ c n. each-Good _ parse_device_type-Good (child_nodes n) c) c2 w2)
                  (λ c3 w3.
                    and_then-Good _ _
                      (parse_section-Good system _ parse_device_groups parse_device_groups-Good c3
                        w3)
                      (λ c4 w4.
                        and_then-Good _ _
                          (parse_section-Good system _ parse_init_script parse_init_script-Good c4
                            w4)
                          (λ c5 w5.
                            and_then-Good _ _
                              (each-Good _ parse_additional-Good (child_nodes system) c5 w5)
                              (λ c6 w6.
                                each-Good _ parse_model_element-Good (child_nodes model) c6
                                  w6)))))))

-- The config files are read into a configuration in which the classes of device types, the members
-- of groups and the devices that the model config turns on are listed in the system config, if they
-- are read at all.
pub new-WellFormed :
    (system model : Node) (c : Configurer) → new system model ≡ some c → WellFormed c
new-WellFormed system model c h = subst Good h (new-Good system model)
