-- ===== src/Head/Tests.antt =====
-- Runs of the head parser, and its theorem at a concrete head.
use hdlskel.Base.{ℕ, ◌≡◌, refl, arith, List, [], ◌∷◌, ◌++◌}
use hdlskel.Base.Result.{ok, err, assertion_error}
use hdlskel.Head.{Head, parse, trim, get_id_str, module_size, module_size_words}
use hdlskel.Head.Parse.{fields, zeros, parse-fields}

abbrev small : Head (List ℕ)
small = record {
  id = 0x61 ∷ 0x62 ∷ [];
  sync = 0xD8;
  version = 1;
  flags = 0;
  checksum = 0x1234;
  len_kids = 1;
  len_sub = 0;
  len_k = 2;
  len_var = 3;
}

no_id : parse ok (zeros 16) ≡ err assertion_error
unfolding parse get_id_str trim
no_id = refl

size_run : module_size small ≡ 40
unfolding module_size module_size_words
size_run = refl

parse-fields_example : parse ok ((0x61 ∷ 0x62 ∷ zeros 6) ++ fields small (9 ∷ [])) ≡ ok small
parse-fields_example =
    parse-fields ok small (0x61 ∷ []) 0x62 6 (9 ∷ []) (omega arith) refl refl (omega arith) refl
      (omega arith)
