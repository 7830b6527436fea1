-- ===== src/Kernel/Xml.antt =====
-- XML elements as trikKernel/src/configurer.cpp asks QDomElement for them.
use trik_runtime.Prelude.{
  Bool, true, false, Option, none, some, List, [], ◌∷◌, ◌++◌, if◌then◌else◌, list_eq,
}
use trik_runtime.Prelude.Maps.{lookup, insert}
use trik_runtime.Text.{bytes_eq, Bytes}

-- Names with their values.
abbrev pub Attributes : Type 0
Attributes = List (Bytes × Bytes)

mutual
  -- An element has its tag name, its attributes, its text and its child nodes; other nodes are
  -- comments and texts.
  pub data Node : Type 0 where
    element : Bytes → Attributes → Bytes → Nodes → Node
    other : Node

  pub data Nodes : Type 0 where
    nil : Nodes
    cons : Node → Nodes → Nodes

abbrev pub nodes : Nodes → List Node
nodes nil = []
nodes (cons n ns) = n ∷ nodes ns

abbrev pub child_nodes : Node → List Node
child_nodes (element tag attributes text children) = nodes children
child_nodes other = []

abbrev pub tag_name : Node → Bytes
tag_name (element tag attributes text children) = tag
tag_name other = []

abbrev pub attributes_of : Node → Attributes
attributes_of (element tag attributes text children) = attributes
attributes_of other = []

abbrev pub text_of : Node → Bytes
text_of (element tag attributes text children) = text
text_of other = []

abbrev pub is_element : Node → Bool
is_element (element tag attributes text children) = true
is_element other = false

abbrev pub value_or : Bytes → Option Bytes → Bytes
value_or d none = d
value_or d (some v) = v

-- attribute(name, default).
abbrev pub attribute_or : Bytes → Bytes → Node → Bytes
attribute_or name d n = value_or d (lookup name (attributes_of n))

-- The loop that copies attributes into a hash.
abbrev pub insert_attributes : Attributes → Attributes → Attributes
insert_attributes [] into = into
insert_attributes ((name, value) ∷ rest) into = insert_attributes rest (insert name value into)

unfoldable mutual
  -- elementsByTagName: the descendants with a tag name, in the order of the document.
  pub named : Bytes → Node → List Node
  named tag (element t attributes text children) =
      let inner = named_within tag children in
      if list_eq t tag then element t attributes text children ∷ inner else inner
  named tag other = []

  pub named_within : Bytes → Nodes → List Node
  named_within tag nil = []
  named_within tag (cons n ns) = named tag n ++ named_within tag ns

unfoldable pub elements_by_tag_name : Bytes → Node → List Node
elements_by_tag_name tag (element t attributes text children) = named_within tag children
elements_by_tag_name tag other = []
