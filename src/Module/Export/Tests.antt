-- ===== src/Module/Export/Tests.antt =====
-- A tree of modules in a file.
use hdlskel.Base.{ℕ, ◌≡◌, refl, arith, true, none, List, [], ◌∷◌}
use hdlskel.Base.Result.{ok}
use hdlskel.Cache.{
  Region, merge_write, cache_write, splice, lay_down, sort, scan, scan_region, validate_addr_size,
}
use hdlskel.Cache.Content.{content}
use hdlskel.Cache.Device.{dev_write}
use hdlskel.Cache.Write.{IsCache}
use hdlskel.Cache.File.{load_from_file}
use hdlskel.Module.Export.{
  cached, uncached, Tree, node, no_kids, uninitialised, kid, write_tree, write_cache_tree_to_file,
}
use hdlskel.Module.Export.Saved.{pieces, latest, load-write_tree}

-- A module with a memory that was read and two kids, of which one is not there yet.
abbrev tree : Tree
tree =
    node 0x10 (1 ∷ 2 ∷ []) (uncached ∷ cached 0x40 2 true (7 ∷ 8 ∷ []) ∷ [])
      (uninitialised (kid (node 0x12 (3 ∷ []) [] no_kids) no_kids))

-- The kid stands behind its parent, so the two share a region.
tree_run : write_tree true tree [] ≡ (
  ok tt,
  (record { start = 0x10; bytes = 1 ∷ 2 ∷ 3 ∷ [] })
      ∷ (record { start = 0x40; bytes = 7 ∷ 8 ∷ [] })
      ∷ [],
)
unfolding write_tree dev_write cache_write merge_write scan scan_region splice lay_down sort
    validate_addr_size
tree_run = refl

load-write_tree_example :
    ((write_cache_tree_to_file tree []).0 ≡ ok tt)
    × (rs : List Region) × (load_from_file (write_cache_tree_to_file tree []).1 true [] ≡ ok rs)
    × IsCache rs
    × ((x : ℕ) → content rs x ≡ latest (pieces tree) x none)
load-write_tree_example = load-write_tree tree [] [] (omega arith)
