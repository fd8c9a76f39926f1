-- ===== src/Module/Export/Saved.antt =====
-- What an exported tree of modules leaves in a cache and in a file.
use hdlskel.Base.{
  ℕ, ◌+◌, ◌≤◌, ◌≡◌, refl, sym, ap, ◌∙◌, arith, true, false, Option, none, List, [], ◌∷◌, ◌++◌,
  length, take, All, All-map_of,
}
use mathlib.Core.Path.{subst}
use hdlskel.Base.Int.{pos}
use hdlskel.Base.Result.{Result, ok}
use hdlskel.Base.Exec.{Exec, continue, ◌>>◌, pure}
use hdlskel.Base.Cells.{or_else}
use hdlskel.Cache.{Region, end, merge_write, cache_write, uint32_max}
use hdlskel.Cache.Content.{content, byte_in}
use hdlskel.Cache.Merge.{merge_write-Fits}
use hdlskel.Cache.Space.{validate-InSpace}
use hdlskel.Cache.Write.{IsCache, IsCache-empty, cache_write-Written}
use hdlskel.Cache.File.{load_from_file}
use hdlskel.Cache.Persist.{load-save}
use hdlskel.Cache.RoundTrip.{IsPackable}
use hdlskel.Cache.Device.{dev_write}
use hdlskel.Module.Export.{
  Memory, uncached, cached, Tree, node, Kids, no_kids, uninitialised, kid, write_mem, write_mems,
  write_cache_to_regio_cache, write_tree, write_kids, write_cache_tree_to_file,
}

-- The pieces of memory that a tree stands for, in order.
abbrev pub mem_pieces : List Memory → List Region
mem_pieces [] = []
mem_pieces (uncached ∷ ms) = mem_pieces ms
mem_pieces (cached a size true cache ∷ ms) =
    (record { start = a; bytes = take size cache }) ∷ mem_pieces ms
mem_pieces (cached a size false cache ∷ ms) = mem_pieces ms

abbrev mutual
  pub pieces : Tree → List Region
  pieces (node a cache mems kids) =
      (record { start = a; bytes = cache }) ∷ (mem_pieces mems ++ kid_pieces kids)

  pub kid_pieces : Kids → List Region
  kid_pieces no_kids = []
  kid_pieces (uninitialised ks) = kid_pieces ks
  kid_pieces (kid t ks) = pieces t ++ kid_pieces ks

-- The byte at an address once the pieces are laid over what was there: the last piece decides.
abbrev pub latest : List Region → ℕ → Option ℕ → Option ℕ
latest [] x before = before
latest (p ∷ ps) x before = latest ps x (or_else (byte_in p x) before)

-- A piece that leaves the last address free.
abbrev pub IsBelow : Region → Type 0
IsBelow r = end r ≤ uint32_max

abbrev IsStore : List Region → Type 0
IsStore rs = IsCache rs × All IsBelow rs

-- A call that lays pieces over the cache.
abbrev Lays : Exec (List Region) (Unit {0}) → List Region → Type 0
Lays call ps =
    (rs : List Region)
    → IsStore rs
    → All IsBelow ps
    → (rs' : List Region) × (call rs ≡ (ok tt, rs'))
      × IsStore rs'
      × ((x : ℕ) → content rs' x ≡ latest ps x (content rs x))

latest-append :
    (ps qs : List Region) (x : ℕ) (before : Option ℕ)
    → latest (ps ++ qs) x before ≡ latest qs x (latest ps x before)
latest-append [] qs x before = refl
latest-append (p ∷ ps) qs x before = latest-append ps qs x (or_else (byte_in p x) before)

All-parts : (ps qs : List Region) → All IsBelow (ps ++ qs) → All IsBelow ps × All IsBelow qs
All-parts [] qs h = (tt, h)
All-parts (p ∷ ps) qs (b, h) = let (hp, hq) = All-parts ps qs h in ((b, hp), hq)

pure-Lays : Lays (pure tt) []
pure-Lays rs s h = (rs, refl, s, λ x. refl)

then-Lays :
    (c d : Exec (List Region) (Unit {0})) (ps qs : List Region)
    → Lays c ps
    → Lays d qs
    → Lays (c >> d) (ps ++ qs)
then-Lays c d ps qs lc ld rs s h =
    let (hp, hq) = All-parts ps qs h in
    let (rs1, e1, s1, w1) = lc rs s hp in
    let (rs2, e2, s2, w2) = ld rs1 s1 hq in
    (
      rs2,
      ap (λ (res : Result (Unit {0}) × List Region). continue res.0 (λ _. d) res.1) e1 ∙ e2,
      s2,
      λ x. w2 x ∙ ap (latest qs x) (w1 x) ∙ sym (latest-append ps qs x (content rs x)),
    )

-- No byte is laid above the limit.
cache_write-IsBelow :
    (rs : List Region) (a : ℕ) (bytes : List ℕ) (rs' : List Region)
    → IsStore rs
    → a + length bytes ≤ uint32_max
    → cache_write rs (pos a) bytes ≡ ok rs'
    → All IsBelow rs'
unfolding cache_write
cache_write-IsBelow rs a [] rs' s h e =
    let same : rs ≡ rs' = ground (arith, validate-InSpace a 0) in subst (All IsBelow) same s.1
cache_write-IsBelow rs a (b ∷ bytes) rs' s h e =
    let same : merge_write rs a (b ∷ bytes) ≡ rs' =
      ground (arith, validate-InSpace a (length (b ∷ bytes))) in
    subst (All IsBelow) same (merge_write-Fits rs a (b ∷ bytes) s.0.chain uint32_max h s.1)

dev_write-Lays :
    (a : ℕ) (bytes : List ℕ) → Lays (dev_write a bytes) ((record { start = a; bytes = bytes }) ∷ [])
unfolding dev_write
dev_write-Lays a bytes rs s (h, _) =
    let (rs', e, c, w) = cache_write-Written rs a bytes s.0 (omega arith, omega arith) in
    (rs', rw e, (c, cache_write-IsBelow rs a bytes rs' s h e), w)

write_mems-Lays : (ms : List Memory) → Lays (write_mems ms) (mem_pieces ms)
unfolding write_mems write_mem
write_mems-Lays [] = pure-Lays
write_mems-Lays (uncached ∷ ms) = write_mems-Lays ms
write_mems-Lays (cached a size true cache ∷ ms) =
    then-Lays (dev_write a (take size cache)) (write_mems ms)
      ((record { start = a; bytes = take size cache }) ∷ []) (mem_pieces ms)
      (dev_write-Lays a (take size cache)) (write_mems-Lays ms)
write_mems-Lays (cached a size false cache ∷ ms) = write_mems-Lays ms

write_cache-Lays :
    (a : ℕ) (cache : List ℕ) (ms : List Memory)
    → Lays
        (write_cache_to_regio_cache true a cache ms)
        ((record { start = a; bytes = cache }) ∷ mem_pieces ms)
unfolding write_cache_to_regio_cache
write_cache-Lays a cache ms =
    then-Lays (dev_write a cache) (write_mems ms) ((record { start = a; bytes = cache }) ∷ [])
      (mem_pieces ms) (dev_write-Lays a cache) (write_mems-Lays ms)

mutual
  unfolding write_tree

  write_tree-Lays : (t : Tree) → Lays (write_tree true t) (pieces t)
  write_tree-Lays (node a cache mems kids) =
      then-Lays (write_cache_to_regio_cache true a cache mems) (write_kids kids)
        ((record { start = a; bytes = cache }) ∷ mem_pieces mems) (kid_pieces kids)
        (write_cache-Lays a cache mems) (write_kids-Lays kids)

  write_kids-Lays : (ks : Kids) → Lays (write_kids ks) (kid_pieces ks)
  write_kids-Lays no_kids = pure-Lays
  write_kids-Lays (uninitialised ks) = write_kids-Lays ks
  write_kids-Lays (kid t ks) =
      then-Lays (write_tree true t) (write_kids ks) (pieces t) (kid_pieces ks) (write_tree-Lays t)
        (write_kids-Lays ks)

below-IsPackable : (rs : List Region) → All IsBelow rs → All IsPackable rs
below-IsPackable rs h =
    All-map_of {P = IsBelow} {Q = IsPackable} (λ r b. (omega arith, omega arith)) rs h

-- Where the caches of a tree, and those of its external memories whose `cache_loaded` is set, all end
-- at or below the last address of 32 bits, which stays free, writing the tree to a file succeeds.
-- Whoever loads that file then has a well formed cache that holds, at each address, the byte of the
-- last of these caches there, whether it came from the device or not, and elsewhere nothing.
pub load-write_tree :
    (t : Tree) (file : List ℕ) (old : List Region)
    → All IsBelow (pieces t)
    → ((write_cache_tree_to_file t file).0 ≡ ok tt)
      × (rs : List Region) × (load_from_file (write_cache_tree_to_file t file).1 true old ≡ ok rs)
      × IsCache rs
      × ((x : ℕ) → content rs x ≡ latest (pieces t) x none)
unfolding write_cache_tree_to_file content
load-write_tree t file old h =
    let (rs, e, s, w) = write_tree-Lays t [] (IsCache-empty, tt) h in
    let (saved, loaded) = load-save rs old file (below-IsPackable rs s.1) in
    rw e (saved, rs, loaded, s.0, w)
