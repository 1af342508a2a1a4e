-- ===== src/Order.antt =====
-- Three-way comparisons, and the stable sort of the package `sort` that the source calls on them.
mod Comparison
mod Stable
mod Firsts
pub use Firsts.{First, stable_sort-First, stable_sort-Sorted_lem}
pub use Comparison.*
unfoldable pub use Stable.{insert_sorted, stable_sort}
pub use Stable.{
  All-Permᴰ, Memᴰ-Permᴰ, Distinct, Sorted, stable_sort-Sorted, stable_sort-perm, Permᴰ-stable_sort,
  Distinct-Permᴰ,
}
