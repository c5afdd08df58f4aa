-- ===== src/Api/Catalog/Forest/Places.antt =====
-- Where `category_tree` of backend/app/api/routers/catalog.py puts the rows.
use nordmarkt.Common.{
  ℕ, suc, ◌+◌, ◌<◌, ◌≡◌, ◌≢◌, ◌⊎◌, inl, inr, sym, subst, Bool, true, false, some, List, [], ◌∷◌,
  String, arith, ltb, ◌==◌, str_eq, if◌then◌else◌, length, All, str_eq-ne, Bool-cases, Option-cases,
}
use nordmarkt.Catalog.Models.{Category}
use nordmarkt.Api.Catalog.Forest.{
  CategoryFields, CategoryOut, Forest, Nodes, append_node, attach, get_node, parent_path, fields_of,
  place, place_all,
}

-- How often a row's node stands in a forest.
abbrev pub occurs : ℕ → Forest → ℕ
occurs k Forest.nil = 0
occurs k (Forest.cons (CategoryOut.node j fields children) f) =
    (if j == k then 1 else 0) + occurs k children + occurs k f

abbrev pub leaf : ℕ → CategoryFields → CategoryOut
leaf n fields = CategoryOut.node n fields Forest.nil

occurs-append :
    (k n : ℕ) (fields : CategoryFields) (f : Forest)
    → occurs k (append_node f (leaf n fields)) ≡ occurs k f + (if n == k then 1 else 0)
unfolding append_node
occurs-append k n fields Forest.nil = ground arith
occurs-append k n fields (Forest.cons (CategoryOut.node j _ children) f) =
    omega (arith, occurs-append k n fields f)

occurs-if :
    (b : Bool) (k n : ℕ) (fields : CategoryFields) (f : Forest)
    → occurs k (if b then append_node f (leaf n fields) else f)
      ≡ occurs k f + (if n == k then (if b then 1 else 0) else 0)
occurs-if true k n fields f = occurs-append k n fields f
occurs-if false k n fields f = ground arith

added :
    (new : Bool) (j here c c' c'' f f' pc pf : ℕ)
    → c' ≡ c + (if new then pc else 0)
    → c'' ≡ c' + (if new then here else 0)
    → f' ≡ f + (if new then pf else 0)
    → j + c'' + f' ≡ j + c + f + (if new then here + pc + pf else 0)
added true j here c c' c'' f f' pc pf h1 h2 h3 = omega (arith, h1, h2, h3)
added false j here c c' c'' f f' pc pf h1 h2 h3 = omega (arith, h1, h2, h3)

-- A new node is put under its parent as often as the parent stands there.
occurs-attach :
    (k n p : ℕ) (fields : CategoryFields) (f : Forest)
    → occurs k (attach p (leaf n fields) f) ≡ occurs k f + (if n == k then occurs p f else 0)
unfolding attach
occurs-attach k n p fields Forest.nil = ground arith
occurs-attach k n p fields (Forest.cons (CategoryOut.node j _ children) f) =
    added (n == k) (if j == k then 1 else 0) (if j == p then 1 else 0) (occurs k children)
      (occurs k (attach p (leaf n fields) children)) _ (occurs k f)
      (occurs k (attach p (leaf n fields) f)) (occurs p children) (occurs p f)
      (occurs-attach k n p fields children)
      (occurs-if (j == p) k n fields (attach p (leaf n fields) children))
      (occurs-attach k n p fields f)

-- A row that is no root and has a parent's path of its own.
abbrev pub IsPlaced : Category → Type 0
IsPlaced row = (row.depth ≡ 0) ⊎ (parent_path row.path ≢ row.path)

-- What the loop keeps: the nodes so far stand once each, and the dictionary holds no others.
pub record IsBuilt (n : ℕ) (nodes : Nodes) (roots : Forest) : Type 0 where
  pub once : (k : ℕ) → occurs k roots ≡ (if ltb k n then 1 else 0)
  pub known : All (λ e. e.1 < n) nodes

get_node_known :
    (n k : ℕ) (path : String) (nodes : Nodes)
    → All (λ e. e.1 < n) nodes
    → get_node path nodes ≡ some k
    → k < n
get_node_known n k path [] h e = ground (arith, e)
get_node_known n k path ((p, j) ∷ nodes) h e = elim (Bool-cases (str_eq p path)) [
  | inl here ↦ ground (arith, h.0, here, e)
  | inr there ↦ get_node_known n k path nodes h.1 (ground (arith, there, e))
]

known_later : (n : ℕ) (nodes : Nodes) → All (λ e. e.1 < n) nodes → All (λ e. e.1 < suc n) nodes
known_later n [] h = tt
known_later n (e ∷ nodes) h = (omega (arith, h.0), known_later n nodes h.1)

-- The three ways of placing a row.
place-root :
    (locale : String) (n : ℕ) (row : Category) (nodes : Nodes) (roots : Forest)
    → IsBuilt n nodes roots
    → IsBuilt (suc n) ((row.path, n) ∷ nodes) (append_node roots (leaf n (fields_of locale row)))
place-root locale n row nodes roots b = record {
  once = λ k. ground (arith, b.once k, occurs-append k n (fields_of locale row) roots);
  known = (omega arith, known_later n nodes b.known);
}

place-child :
    (locale : String) (n p : ℕ) (row : Category) (nodes : Nodes) (roots : Forest)
    → p < n
    → IsBuilt n nodes roots
    → IsBuilt (suc n) ((row.path, n) ∷ nodes) (attach p (leaf n (fields_of locale row)) roots)
place-child locale n p row nodes roots h b = record {
  once = λ k. ground (arith, b.once k, b.once p, occurs-attach k n p (fields_of locale row) roots);
  known = (omega arith, known_later n nodes b.known);
}

below-apart :
    (row : Category) → IsPlaced row → (row.depth == 0) ≡ false → row.path ≢ parent_path row.path
below-apart row (inl root) below e = ground (arith, root, below)
below-apart row (inr apart) below e = apart (sym e)

place-IsBuilt :
    (locale : String) (n : ℕ) (row : Category) (nodes : Nodes) (roots : Forest)
    → IsPlaced row
    → IsBuilt n nodes roots
    → let s = place locale n row (nodes, roots) in IsBuilt (suc n) s.0 s.1
unfolding place
place-IsBuilt locale n row nodes roots placed b = elim (Bool-cases (row.depth == 0)) [
  | inl root ↦ rw root (place-root locale n row nodes roots b)
  | inr below ↦
      let apart = str_eq-ne (below-apart row placed below) in
      elim (Option-cases (get_node (parent_path row.path) nodes)) [
        | inl missing ↦ rw (below, apart, missing) (place-root locale n row nodes roots b)
        | inr (p, found) ↦
            rw (below, apart, found)
              (place-child locale n p row nodes roots (get_node_known n p _ nodes b.known found) b)
      ]
]

pub place_all-IsBuilt :
    (locale : String) (n : ℕ) (rows : List Category) (nodes : Nodes) (roots : Forest)
    → All IsPlaced rows
    → IsBuilt n nodes roots
    → let s = place_all locale n rows (nodes, roots) in IsBuilt (n + length rows) s.0 s.1
unfolding place_all
place_all-IsBuilt locale n [] nodes roots h b = subst (λ k. IsBuilt k nodes roots) (omega arith) b
place_all-IsBuilt locale n (row ∷ rows) nodes roots h b =
    let s = place locale n row (nodes, roots) in
    subst (λ k. IsBuilt k (place_all locale (suc n) rows s).0 (place_all locale (suc n) rows s).1)
      (omega arith)
      (place_all-IsBuilt locale (suc n) rows s.0 s.1 h.1
        (place-IsBuilt locale n row nodes roots h.0 b))
