-- ===== src/Catalog/Categories.antt =====
-- backend/app/modules/catalog/repository.py: `CategoryRepository`, and the reads of one product.
use nordmarkt.Common.{
  Bool, ◌&&◌, ◌||◌, Option, List, [], ◌∷◌, String, leb, str_eq, if◌then◌else◌, is_none, find,
  select,
}
use nordmarkt.Common.Texts.{split, mem_text, ◌+s◌}
use nordmarkt.Catalog.Models.{Category, Product}

-- `get_by_slug` of `ProductRepository`; slugs are unique in the table.
unfoldable pub get_by_slug : String → List Product → Option Product
get_by_slug slug = find λ p. str_eq p.slug slug && (p.is_published && is_none p.deleted_at)

-- ORDER BY path, position, in a collation of the database: whether a text stands before another.
abbrev pub is_before : (String → String → Bool) → Category → Category → Bool
is_before less c d = less c.path d.path || (str_eq c.path d.path && leb c.position d.position)

unfoldable pub insert_category :
    (Category → Category → Bool) → Category → List Category → List Category
insert_category before c [] = c ∷ []
insert_category before c (d ∷ ds) =
    if before c d then c ∷ d ∷ ds else d ∷ insert_category before c ds

unfoldable pub sort_categories : (Category → Category → Bool) → List Category → List Category
unfolding insert_category
sort_categories before [] = []
sort_categories before (c ∷ cs) = insert_category before c (sort_categories before cs)

unfoldable pub tree : (String → String → Bool) → List Category → List Category
unfolding sort_categories
tree less = sort_categories (is_before less)

unfoldable pub by_path : String → List Category → Option Category
by_path path = find λ c. str_eq c.path path

-- A first segment before every one of the prefixes of the others.
abbrev pub under : String → List String → List String
under s [] = []
under s (p ∷ ps) = (s +s "." +s p) ∷ under s ps

-- `[".".join(segments[: i + 1]) for i in range(len(segments))]`
unfoldable pub prefixes : List String → List String
prefixes [] = []
prefixes (s ∷ ss) = s ∷ under s (prefixes ss)

-- All ancestors and the node itself, by depth.
unfoldable pub breadcrumb : String → List Category → List Category
unfolding sort_categories
breadcrumb path categories =
    sort_categories (λ c d. leb c.depth d.depth)
      (select (λ c. mem_text c.path (prefixes (split b'.' path))) categories)
