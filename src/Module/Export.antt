-- ===== src/Module/Export.antt =====
-- pip/skmap/src/skmap/module.py: how a tree of modules is written to a `RegioCache` and to a file.
-- A tree is what these methods read of it: addresses, caches, external memories and kids.
pub mod Saved
mod Tests
use hdlskel.Base.{ℕ, if◌then◌else◌, Bool, true, List, [], ◌∷◌, take}
use hdlskel.Base.Exec.{Exec, continue, ◌>>=◌, ◌>>◌, pure}
use hdlskel.Cache.{Region}
use hdlskel.Cache.File.{save_to_file}
use hdlskel.Cache.Device.{dev_write}

-- An external memory without a cache, and one with it: its address, size, `cache_loaded` and bytes.
pub data Memory : Type 0 where
  uncached : Memory
  cached : (base_addr size : ℕ) (cache_loaded : Bool) (cache : List ℕ) → Memory

-- `_base_addr`, `_cache`, `_arr_external_mem` and `_kids`, where a kid may not be initialised.
mutual
  pub data Tree : Type 0 where
    node : (base_addr : ℕ) (cache : List ℕ) (mems : List Memory) (kids : Kids) → Tree

  pub data Kids : Type 0 where
    no_kids : Kids
    uninitialised : Kids → Kids
    kid : Tree → Kids → Kids

-- The body of the loop over the external memories. `read_cached(0, mem.size)` is inside the bounds.
unfoldable pub write_mem : Memory → Exec (List Region) (Unit {0})
unfolding dev_write
write_mem uncached = pure tt
write_mem (cached base_addr size cache_loaded cache) =
    if cache_loaded then dev_write base_addr (take size cache) else pure tt

unfoldable pub write_mems : List Memory → Exec (List Region) (Unit {0})
unfolding write_mem
write_mems [] = pure tt
write_mems (m ∷ ms) = do write_mem m; write_mems ms

-- `_write_cache_to_regio_cache`
unfoldable pub write_cache_to_regio_cache :
    Bool → ℕ → List ℕ → List Memory → Exec (List Region) (Unit {0})
unfolding write_mems dev_write
write_cache_to_regio_cache include_external_mem base_addr cache mems = do
  dev_write base_addr cache
  if include_external_mem then write_mems mems else pure tt

-- `_write_cache_to_regio_cache_tree`: the kids are written with their memories.
unfoldable mutual
  unfolding write_cache_to_regio_cache

  pub write_tree : Bool → Tree → Exec (List Region) (Unit {0})
  write_tree include_external_mem (node base_addr cache mems kids) = do
    write_cache_to_regio_cache include_external_mem base_addr cache mems
    write_kids kids

  pub write_kids : Kids → Exec (List Region) (Unit {0})
  write_kids no_kids = pure tt
  write_kids (uninitialised ks) = write_kids ks
  write_kids (kid t ks) = do write_tree true t; write_kids ks

-- `write_cache_tree_to_file`, on the bytes of the file.
unfoldable pub write_cache_tree_to_file : Tree → Exec (List ℕ) (Unit {0})
unfolding write_tree save_to_file
write_cache_tree_to_file t file =
    let res = write_tree true t [] in continue res.0 (λ _. save_to_file res.1) file
