-- ===== src/Coding/Framework.antt =====
-- The coding framework of src/qfa/domain/models.py and its options, of src/qfa/services/coding_classifier.py.
use qualitative_feedback_ana.Prelude.{
  ◌≡◌, refl, ◌↔◌, inl, inr, List, [], ◌∷◌, ◌++◌, map, Text, codes, join, append_assoc, sym, subst,
  ◌∙◌, All, All_at, All-append, All-map, Among, Among-append_left, Among-append_right,
}

-- `children : list[CodingNode]` is the second type.
mutual
  pub data CodingNode : Type 0 where
    node : (id name : Text) (children : CodingNodes) → CodingNode

  pub data CodingNodes : Type 0 where
    no_nodes : CodingNodes
    nodes : CodingNode → CodingNodes → CodingNodes

-- `(id, name)` per level, root first.
abbrev pub CodePath : Type 0
CodePath = List (Text × Text)

unfoldable pub format_code_path : CodePath → Text
format_code_path path = join (codes " > ") (map (λ level. level.1) path)

-- The options are their paths: `CodePathOption` has no other field.
unfoldable pub flatten_coding_nodes : CodingNodes → (prefix : CodePath) → List CodePath
flatten_coding_nodes no_nodes prefix = []
flatten_coding_nodes (nodes (node id name children) rest) prefix =
    let path = prefix ++ (id, name) ∷ [] in
    (path ∷ flatten_coding_nodes children path) ++ flatten_coding_nodes rest prefix

-- A path from a root of the framework down to some node.
pub data Leads : CodingNodes → CodePath → Type 0 where
  stop :
      (id name : Text) (children rest : CodingNodes)
      → Leads (nodes (node id name children) rest) ((id, name) ∷ [])
  down :
      (id name : Text) (children rest : CodingNodes) (path : CodePath)
      → Leads children path
      → Leads (nodes (node id name children) rest) ((id, name) ∷ path)
  next :
      (first : CodingNode) (rest : CodingNodes) (path : CodePath)
      → Leads rest path
      → Leads (nodes first rest) path

-- Each option leads to a node below the prefix.
abbrev LeadsBelow : CodingNodes → CodePath → CodePath → Type 0
LeadsBelow ns prefix option = (path : CodePath) × (option ≡ prefix ++ path) × Leads ns path

sound :
    (ns : CodingNodes) (prefix : CodePath)
    → All (LeadsBelow ns prefix) (flatten_coding_nodes ns prefix)
unfolding flatten_coding_nodes
sound no_nodes prefix = tt
sound (nodes (node id name children) rest) prefix =
    let path = prefix ++ (id, name) ∷ [] in
    (
      ((id, name) ∷ [], refl, stop id name children rest),
      All-append (LeadsBelow (nodes (node id name children) rest) prefix)
          (flatten_coding_nodes children path) (flatten_coding_nodes rest prefix)
          (All-map
            (λ option (below, e, l). (
              (id, name) ∷ below,
              e ∙ append_assoc prefix ((id, name) ∷ []) below,
              down id name children rest below l,
            ))
            (flatten_coding_nodes children path) (sound children path))
          (All-map (λ option (below, e, l). (below, e, next (node id name children) rest below l))
            (flatten_coding_nodes rest prefix) (sound rest prefix)),
    )

complete :
    (ns : CodingNodes) (prefix path : CodePath)
    → Leads ns path
    → Among (prefix ++ path) (flatten_coding_nodes ns prefix)
unfolding flatten_coding_nodes
complete _ prefix _ (stop id name children rest) = inl refl
complete _ prefix _ (down id name children rest path l) = inr (
    Among-append_left (prefix ++ (id, name) ∷ path)
      (flatten_coding_nodes children (prefix ++ (id, name) ∷ [])) (flatten_coding_nodes rest prefix)
      (subst (λ p. Among p (flatten_coding_nodes children (prefix ++ (id, name) ∷ [])))
        (append_assoc prefix ((id, name) ∷ []) path)
        (complete children (prefix ++ (id, name) ∷ []) path l)))
complete _ prefix _ (next (node id name children) rest path l) = inr (
    Among-append_right (prefix ++ path) (flatten_coding_nodes children (prefix ++ (id, name) ∷ []))
      (flatten_coding_nodes rest prefix) (complete rest prefix path l))

-- The options are the paths from a root down to some node: each option is one, and each one is an option.
pub flatten_coding_nodes-iff-Leads :
    (ns : CodingNodes) (path : CodePath) → Among path (flatten_coding_nodes ns []) ↔ Leads ns path
flatten_coding_nodes-iff-Leads ns path = (
  λ m.
      let (below, e, l) = All_at (LeadsBelow ns []) (flatten_coding_nodes ns []) (sound ns []) m in
      subst (Leads ns) (sym e) l,
  complete ns [] path,
)
