-- ===== src/Api/Catalog/Forest.antt =====
-- backend/app/api/routers/catalog.py: `category_tree`, which hangs every category below the node of
-- its parent's path. A node has the number of its row, which stands for the identity of the object:
-- the dictionary and the lists of children refer to the same nodes.
pub mod Places
pub mod Shape
use nordmarkt.Common.{
  ℕ, zero, suc, ◌+◌, Bool, true, false, ◌||◌, Option, none, some, List, [], ◌∷◌, String, ◌==◌,
  str_eq, if◌then◌else◌, is_none,
}
use nordmarkt.Common.Texts.{◌+s◌, split, join}
use nordmarkt.Shared.Localization.{resolve_translation}
use nordmarkt.Catalog.Models.{Category}
use nordmarkt.Catalog.Categories.{tree}

-- The fields of `CategoryOut` but its children.
pub record CategoryFields : Type 0 where
  pub slug : String
  pub path : String
  pub name : String
  pub depth : ℕ

mutual
  pub data CategoryOut : Type 0 where
    node : ℕ → CategoryFields → Forest → CategoryOut

  -- A list of nodes.
  pub data Forest : Type 0 where
    nil : Forest
    cons : CategoryOut → Forest → Forest

-- `list.append`
unfoldable pub append_node : Forest → CategoryOut → Forest
append_node Forest.nil c = Forest.cons c Forest.nil
append_node (Forest.cons d f) c = Forest.cons d (append_node f c)

-- `nodes[parent_path].children.append(node)`, wherever that parent stands.
unfoldable pub attach : ℕ → CategoryOut → Forest → Forest
unfolding append_node
attach parent c Forest.nil = Forest.nil
attach parent c (Forest.cons (CategoryOut.node k fields children) f) =
    let inner = attach parent c children in
    let rest = attach parent c f in
    Forest.cons (CategoryOut.node k fields (if k == parent then append_node inner c else inner))
      rest

-- `path.rsplit(".", 1)[0]`: a path without a dot is its own.
all_but_last : List String → List String
all_but_last [] = []
all_but_last (s ∷ []) = []
all_but_last (s ∷ t ∷ ss) = s ∷ all_but_last (t ∷ ss)

unfoldable pub parent_path : String → String
unfolding all_but_last
parent_path path = elim (all_but_last (split b'.' path)) [ [] ↦ path | s ∷ ss ↦ join "." (s ∷ ss) ]

-- `nodes`: the newest node of each path first.
abbrev pub Nodes : Type 0
Nodes = List (String × ℕ)

abbrev pub get_node : String → Nodes → Option ℕ
get_node path [] = none
get_node path ((p, k) ∷ nodes) = if str_eq p path then some k else get_node path nodes

abbrev pub fields_of : String → Category → CategoryFields
fields_of locale row = record {
  slug = row.slug;
  path = row.path;
  name = resolve_translation (some row.name) locale;
  depth = row.depth;
}

-- One round of the loop, on the row of number `k`. The node enters the dictionary before its
-- parent is looked up.
unfoldable pub place : String → ℕ → Category → Nodes × Forest → Nodes × Forest
unfolding attach append_node
place locale k row (nodes, roots) =
    let new = CategoryOut.node k (fields_of locale row) Forest.nil in
    let nodes = (row.path, k) ∷ nodes in
    (
      nodes,
      if row.depth == 0
          then append_node roots new
          else elim (get_node (parent_path row.path) nodes) [
            | none ↦ append_node roots new
            | some parent ↦ attach parent new roots
          ],
    )

unfoldable pub place_all : String → ℕ → List Category → Nodes × Forest → Nodes × Forest
unfolding place
place_all locale k [] s = s
place_all locale k (row ∷ rows) s = place_all locale (suc k) rows (place locale k row s)

-- `category_tree`
unfoldable pub category_tree : (String → String → Bool) → String → List Category → Forest
unfolding place_all
category_tree less locale categories =
    (place_all locale 0 (tree less categories) ([], Forest.nil)).1
