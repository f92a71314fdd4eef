-- ===== src/Replay/Yaml.antt =====
-- What the parser takes from yaml-cpp, which is not part of the repository: the kind of a node, the
-- text of a scalar, the elements of a sequence and the members of a map. A lookup that throws is not
-- modelled.
use proxy_verifier.Base.{Bytes, List, Option}

-- `YAML::NodeType`; a node that is not there has no kind.
pub data NodeKind : Type 0 where
  null scalar sequence mapping : NodeKind

pub record YamlOps (Node : Type 0) : Type 0 where
  pub kind : Node → NodeKind
  pub text : Node → Bytes
  pub elements : Node → List Node
  pub member : Node → Bytes → Option Node
