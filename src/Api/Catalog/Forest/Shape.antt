-- ===== src/Api/Catalog/Forest/Shape.antt =====
-- What hangs below what in `category_tree` of backend/app/api/routers/catalog.py.
use nordmarkt.Common.{
  ℕ, zero, suc, ◌+◌, ◌≡◌, refl, Perm, ap, ◌∙◌, Bool, true, false, Option, none, some, List, [], ◌∷◌,
  String, arith, ltb, ◌==◌, str_eq, eq_iff, if◌then◌else◌, length, All, Bool-cases, Option-cases,
  inl, inr,
}
use mathlib.Core.List.Perm
use nordmarkt.Catalog.Models.{Category}
use nordmarkt.Catalog.Categories.{tree, sort_categories, insert_category, is_before}
use nordmarkt.Api.Catalog.Forest.{
  CategoryFields, CategoryOut, Forest, Nodes, append_node, attach, get_node, parent_path, fields_of,
  place, place_all, category_tree,
}
use nordmarkt.Api.Catalog.Forest.Places.{occurs, leaf, IsPlaced, place_all-IsBuilt}

-- The nodes of a list have the parent path given.
abbrev pub ChildrenOf : String → Forest → Type 0
ChildrenOf path Forest.nil = Unit
ChildrenOf path (Forest.cons (CategoryOut.node _ fields _) f) =
    (parent_path fields.path ≡ path) × ChildrenOf path f

-- Every node has the fields that belong to its number, and its children have its path as their
-- parent's.
abbrev pub IsTree : (ℕ → Option CategoryFields) → Forest → Type 0
IsTree at Forest.nil = Unit
IsTree at (Forest.cons (CategoryOut.node k fields children) f) =
    (at k ≡ some fields) × ChildrenOf fields.path children × IsTree at children × IsTree at f

ChildrenOf-append :
    (path : String) (n : ℕ) (new : CategoryFields) (f : Forest)
    → parent_path new.path ≡ path
    → ChildrenOf path f
    → ChildrenOf path (append_node f (leaf n new))
unfolding append_node
ChildrenOf-append path n new Forest.nil e h = (e, tt)
ChildrenOf-append path n new (Forest.cons (CategoryOut.node _ _ _) f) e h =
    (h.0, ChildrenOf-append path n new f e h.1)

ChildrenOf-attach :
    (path : String) (p : ℕ) (c : CategoryOut) (f : Forest)
    → ChildrenOf path f
    → ChildrenOf path (attach p c f)
unfolding attach
ChildrenOf-attach path p c Forest.nil h = tt
ChildrenOf-attach path p c (Forest.cons (CategoryOut.node _ _ _) f) h =
    (h.0, ChildrenOf-attach path p c f h.1)

module _ (at : ℕ → Option CategoryFields) (n : ℕ) (new : CategoryFields)
    (here : at n ≡ some new) where
  IsTree-append : (f : Forest) → IsTree at f → IsTree at (append_node f (leaf n new))
  unfolding append_node
  IsTree-append Forest.nil h = (here, tt, tt, tt)
  IsTree-append (Forest.cons (CategoryOut.node _ _ _) f) h = (h.0, h.1, h.2, IsTree-append f h.3)

  -- One node, by whether it is the parent.
  IsTree-node :
      (b : Bool) (fields : CategoryFields) (children : Forest)
      → (b ≡ true → parent_path new.path ≡ fields.path)
      → ChildrenOf fields.path children
      → IsTree at children
      → let all = if b then append_node children (leaf n new) else children in
        ChildrenOf fields.path all × IsTree at all
  IsTree-node true fields children e c t =
      (ChildrenOf-append fields.path n new children (e refl) c, IsTree-append children t)
  IsTree-node false fields children e c t = (c, t)

  IsTree-attach :
      (p : ℕ) (parent : CategoryFields) (f : Forest)
      → at p ≡ some parent
      → parent.path ≡ parent_path new.path
      → IsTree at f
      → IsTree at (attach p (leaf n new) f)
  unfolding attach
  IsTree-attach p parent Forest.nil e same h = tt
  IsTree-attach p parent (Forest.cons (CategoryOut.node k fields children) f) e same h =
      let inner = IsTree-attach p parent children e same h.2 in
      let node =
        IsTree-node (k == p) fields (attach p (leaf n new) children)
          (λ b. ground (arith, b, h.0, e, same))
          (ChildrenOf-attach fields.path p (leaf n new) children h.1) inner in
      (h.0, node.0, node.1, IsTree-attach p parent f e same h.3)

-- An entry of the dictionary is a node of that path.
abbrev IsEntry : (ℕ → Option CategoryFields) → String × ℕ → Type 0
IsEntry at (path, k) = (fields : CategoryFields) × (at k ≡ some fields) × (fields.path ≡ path)

get_node-IsEntry :
    (at : ℕ → Option CategoryFields) (path : String) (nodes : Nodes) (k : ℕ)
    → All (IsEntry at) nodes
    → get_node path nodes ≡ some k
    → IsEntry at (path, k)
get_node-IsEntry at path [] k h e = ground (arith, e)
get_node-IsEntry at path ((p, j) ∷ nodes) k h e = elim (Bool-cases (str_eq p path)) [
  | inl here ↦
      let (fields, there, same) = h.0 in
      (fields, ground (arith, here, e, there), ground (arith, same, here, eq_iff p path))
  | inr other ↦ get_node-IsEntry at path nodes k h.1 (ground (arith, other, e))
]

module _ (at : ℕ → Option CategoryFields) (locale : String) where
  place-IsTree :
      (n : ℕ) (row : Category) (nodes : Nodes) (roots : Forest)
      → at n ≡ some (fields_of locale row)
      → All (IsEntry at) nodes
      → IsTree at roots
      → let s = place locale n row (nodes, roots) in All (IsEntry at) s.0 × IsTree at s.1
  unfolding place
  place-IsTree n row nodes roots here h t =
      let new = fields_of locale row in
      let later : Nodes = (row.path, n) ∷ nodes in
      let entries : All (IsEntry at) later = ((new, here, refl), h) in
      (
        entries,
        elim (Bool-cases (row.depth == 0)) [
          | inl root ↦ rw root (IsTree-append at n new here roots t)
          | inr below ↦ elim (Option-cases (get_node (parent_path row.path) later)) [
            | inl missing ↦ rw (below, missing) (IsTree-append at n new here roots t)
            | inr (p, found) ↦
                let (parent, there, same) =
                  get_node-IsEntry at (parent_path row.path) later p entries found in
                rw (below, found) (IsTree-attach at n new here p parent roots there same t)
          ]
        ],
      )

  -- The fields of the rows, from a number on.
  abbrev IsFrom : ℕ → List Category → Type 0
  IsFrom n [] = Unit
  IsFrom n (row ∷ rows) = (at n ≡ some (fields_of locale row)) × IsFrom (suc n) rows

  place_all-IsTree :
      (n : ℕ) (rows : List Category) (nodes : Nodes) (roots : Forest)
      → IsFrom n rows
      → All (IsEntry at) nodes
      → IsTree at roots
      → IsTree at (place_all locale n rows (nodes, roots)).1
  unfolding place_all
  place_all-IsTree n [] nodes roots r h t = t
  place_all-IsTree n (row ∷ rows) nodes roots r h t =
      let s = place-IsTree n row nodes roots r.0 h t in
      place_all-IsTree (suc n) rows _ _ r.1 s.0 s.1

-- What a row of a number is shown as.
abbrev pub fields_at : String → List Category → ℕ → Option CategoryFields
fields_at locale [] k = none
fields_at locale (row ∷ rows) zero = some (fields_of locale row)
fields_at locale (row ∷ rows) (suc k) = fields_at locale rows k

fields_at-IsFrom :
    (at : ℕ → Option CategoryFields) (locale : String) (n : ℕ) (rows : List Category)
    → ((i : ℕ) → at (n + i) ≡ fields_at locale rows i)
    → IsFrom at locale n rows
fields_at-IsFrom at locale n [] h = tt
fields_at-IsFrom at locale n (row ∷ rows) h = (
  ap at (omega arith) ∙ h 0,
  fields_at-IsFrom at locale (suc n) rows (λ i. ap at (omega arith) ∙ h (suc i)),
)

insert-IsPlaced :
    (before : Category → Category → Bool) (c : Category) (ds : List Category)
    → IsPlaced c
    → All IsPlaced ds
    → All IsPlaced (insert_category before c ds)
      × (length (insert_category before c ds) ≡ suc (length ds))
unfolding insert_category
insert-IsPlaced before c [] p h = ((p, tt), refl)
insert-IsPlaced before c (d ∷ ds) p h = elim (Bool-cases (before c d)) [
  | inl sooner ↦ rw sooner ((p, h), refl)
  | inr later ↦
      let rest = insert-IsPlaced before c ds p h.1 in rw later ((h.0, rest.0), ap suc rest.1)
]

sort-IsPlaced :
    (before : Category → Category → Bool) (cs : List Category)
    → All IsPlaced cs
    → All IsPlaced (sort_categories before cs) × (length (sort_categories before cs) ≡ length cs)
unfolding sort_categories
sort-IsPlaced before [] h = (tt, refl)
sort-IsPlaced before (c ∷ cs) h =
    let rest = sort-IsPlaced before cs h.1 in
    let new = insert-IsPlaced before c _ h.0 rest.0 in (new.0, new.1 ∙ ap suc rest.1)

insert-Perm :
    (before : Category → Category → Bool) (c : Category) (ds : List Category)
    → Perm (c ∷ ds) (insert_category before c ds)
unfolding insert_category
insert-Perm before c [] = Perm.refl (c ∷ [])
insert-Perm before c (d ∷ ds) = elim (Bool-cases (before c d)) [
  | inl sooner ↦ rw sooner (Perm.refl (c ∷ d ∷ ds))
  | inr later ↦ rw later (Perm.trans (Perm.swap d c ds) (Perm.cons d (insert-Perm before c ds)))
]

sort-Perm :
    (before : Category → Category → Bool) (cs : List Category) → Perm cs (sort_categories before cs)
unfolding sort_categories
sort-Perm before [] = Perm.nil
sort-Perm before (c ∷ cs) = Perm.trans (Perm.cons c (sort-Perm before cs)) (insert-Perm before c _)

-- Where the path of every category below the top differs from its parent's path: in what
-- `category_tree` returns, each category stands exactly once, with its own slug, path, depth and
-- translated name, and every node below another has that node's path as its parent's path. The rows
-- are numbered in the order of the query, which returns each category once.
pub category_tree-once :
    (less : String → String → Bool) (locale : String) (categories : List Category)
    → All IsPlaced categories
    → Perm categories (tree less categories)
      × ((k : ℕ)
          → occurs k (category_tree less locale categories)
            ≡ (if ltb k (length categories) then 1 else 0))
      × IsTree (fields_at locale (tree less categories)) (category_tree less locale categories)
unfolding category_tree tree
category_tree-once less locale categories h =
    let rows = tree less categories in
    let (placed, same) = sort-IsPlaced (is_before less) categories h in
    let built =
      place_all-IsBuilt locale 0 rows [] Forest.nil placed
        (record { once = λ k. ground arith; known = tt }) in
    (
      sort-Perm (is_before less) categories,
      λ k. ground (arith, built.once k, same),
      place_all-IsTree (fields_at locale rows) locale 0 rows [] Forest.nil
          (fields_at-IsFrom (fields_at locale rows) locale 0 rows
            (λ i. ap (fields_at locale rows) (omega arith)))
          tt tt,
    )
