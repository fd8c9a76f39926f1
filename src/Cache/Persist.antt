-- ===== src/Cache/Persist.antt =====
-- A cache in a file: what `save_to_file` writes and `load_from_file` makes of any file.
use hdlskel.Base.{ℕ, suc, ◌≡◌, refl}
use hdlskel.Base.{sym, ap, ◌∙◌, arith, ◌⊎◌, inl, inr, Bool, true, false, if◌then◌else◌}
use hdlskel.Base.{List, [], ◌++◌, length, take, drop, All, All-drop, take-append-drop}
use hdlskel.Base.Bytes.{same_bytes, same_bytes_iff, IsByte}
use hdlskel.Base.Result.{Exn, Result-cases, ok, err, value_error}
use mathlib.Core.Path.{ap₂}
use hdlskel.Cache.{Region}
use hdlskel.Cache.File.{file_header, save_to_file, load_loop, load_entries}
use hdlskel.Cache.File.{load_from_file, merge_all}
use hdlskel.Cache.RoundTrip.{encoding, IsPackable, save_regions-encoding, load_loop-encoding}
use hdlskel.Cache.RoundTrip.{load_loop_errors, load_loop-inverse}

save_to_file-encoding :
    (rs : List Region) (file : List ℕ)
    → All IsPackable rs
    → save_to_file rs file ≡ (ok tt, file_header ++ encoding rs)
unfolding save_to_file
save_to_file-encoding rs file p = save_regions-encoding rs file_header p

load_entries-encoding : (rs : List Region) → All IsPackable rs → load_entries (encoding rs) ≡ ok rs
unfolding load_entries
load_entries-encoding rs p = load_loop-encoding rs (suc (length (encoding rs))) [] p (omega arith)

load-encoding :
    (rs old : List Region)
    → All IsPackable rs
    → load_from_file (file_header ++ encoding rs) true old ≡ ok rs
unfolding load_from_file
load-encoding rs old p =
    ap (λ res. elim res [ err x ↦ err x | ok loaded ↦ ok loaded ]) (load_entries-encoding rs p)

-- Saving a cache whose regions all have an address and a size of 32 bits succeeds, and loading
-- the file that it wrote gives back exactly these regions, whatever was cached before.
pub load-save :
    (rs old : List Region) (file : List ℕ)
    → All IsPackable rs
    → ((save_to_file rs file).0 ≡ ok tt)
      × (load_from_file (save_to_file rs file).1 true old ≡ ok rs)
load-save rs old file p = rw (save_to_file-encoding rs file p) (refl, load-encoding rs old p)

accepted :
    (file : List ℕ) (rs old : List Region)
    → load_from_file file true old ≡ ok rs
    → (same_bytes (take 8 file) file_header ≡ true)
      × (load_loop (suc (length (drop 8 file))) (drop 8 file) [] ≡ ok rs)
unfolding load_from_file load_entries
accepted file rs old e = ground arith

accepted_regions :
    (file before : List ℕ) (rs old : List Region)
    → All IsByte file
    → load_from_file file true old ≡ ok rs
    → All IsPackable rs × (save_to_file rs before ≡ (ok tt, file))
unfolding load_from_file
accepted_regions file before rs old b e =
    let (same, parsed) = accepted file rs old e in
    let (qs, s, whole, packable) =
      load_loop-inverse (suc (length (drop 8 file))) (drop 8 file) [] rs (All-drop IsByte 8 file b)
        parsed in
    rw s (
      packable,
      save_to_file-encoding qs before packable
          ∙ ap (λ t. (ok tt, t))
              (ap₂ ◌++◌ (sym ((same_bytes_iff (take 8 file) file_header).0 same)) whole
                ∙ take-append-drop 8 file),
    )

-- A file of bytes that `load_from_file` accepts is the very file that saving the loaded regions
-- writes: nothing in it is skipped or made up.
pub save-load :
    (file before : List ℕ) (rs old : List Region)
    → All IsByte file
    → load_from_file file true old ≡ ok rs
    → save_to_file rs before ≡ (ok tt, file)
save-load file before rs old b e = (accepted_regions file before rs old b e).1

load_errors :
    (file : List ℕ) (replace : Bool) (old : List Region) (x : Exn)
    → load_from_file file replace old ≡ err x
    → x ≡ value_error
unfolding load_from_file
load_errors file replace old x e =
    ground (arith, load_loop_errors (suc (length (drop 8 file))) (drop 8 file) [] x)

-- Whether a file is accepted does not depend on `replace` and on what was cached.
load_accepts :
    (file : List ℕ) (replace : Bool) (old rs : List Region)
    → load_from_file file true old ≡ ok rs
    → load_from_file file replace old ≡ ok (if replace then rs else merge_all old rs)
unfolding load_from_file
load_accepts file true old rs e = e
load_accepts file false old rs e = ground arith

load_refuses :
    (file : List ℕ) (replace : Bool) (old : List Region) (x : Exn)
    → load_from_file file true old ≡ err x
    → load_from_file file replace old ≡ err x
unfolding load_from_file
load_refuses file true old x e = e
load_refuses file false old x e = ground arith

-- The file is what saving these regions writes.
abbrev pub IsSaved : List ℕ → List Region → Type 0
IsSaved file rs = All IsPackable rs × (save_to_file rs [] ≡ (ok tt, file))

saved_loads :
    (file : List ℕ) (rs old : List Region) → IsSaved file rs → load_from_file file true old ≡ ok rs
saved_loads file rs old (p, e) = rw e at ((load-save rs old [] p).1)

ok_ne_err : {A : Type 0} {a : A} {x : Exn} → ¬ (ok a ≡ err x)
ok_ne_err e = absurd (cc)

-- Loading ends on every file of bytes, with the right answer: either the file is what saving some
-- regions writes, and then these replace what was cached, or are merged into it, as was asked for;
-- or saving writes no such file, and then loading raises a ValueError.
pub load_total :
    (file : List ℕ) (replace : Bool) (old : List Region)
    → All IsByte file
    → ((rs : List Region) × IsSaved file rs
        × (load_from_file file replace old ≡ ok (if replace then rs else merge_all old rs)))
      ⊎ (((rs : List Region) → ¬ IsSaved file rs)
          × (load_from_file file replace old ≡ err value_error))
load_total file replace old b = elim (Result-cases (load_from_file file true old)) [
  | inl (rs, e) ↦ inl (rs, accepted_regions file [] rs old b e, load_accepts file replace old rs e)
  | inr (x, e) ↦ inr (
    λ rs s. ok_ne_err (sym (saved_loads file rs old s) ∙ e),
    load_refuses file replace old x e ∙ ap err (load_errors file true old x e),
  )
]
