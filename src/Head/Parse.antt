-- ===== src/Head/Parse.antt =====
-- pip/skmap/src/skmap/head.py: parsing the head at the front of a module.
use hdlskel.Base.{ℕ, zero, suc, ◌+◌, ◌-◌, ◌/◌, ◌%◌, ◌≤◌, ◌<◌, ltb, ◌==◌, ◌≡◌, refl, ap, ◌∙◌, arith}
use hdlskel.Base.{
  false, List, [], ◌∷◌, ◌++◌, length, take, get_elem?, replicate, Option, none, some,
}
use hdlskel.Base.{length-append, length-replicate, get_elem?-append}
use hdlskel.Base.Bytes.{from_le}
use hdlskel.Base.Result.{Result, ok, err, ◌>>=◌, ◌>>◌, guard, assertion_error, index_error}
use hdlskel.Head.{Head, trim, at, get_id_str, parse, size_id}

abbrev pub zeros : ℕ → List ℕ
zeros n = replicate n 0

length-zeros : (n : ℕ) → length (zeros n) ≡ n
length-zeros n = length-replicate {A = ℕ} n 0

get_elem?-zeros : (n i : ℕ) → i < n → get_elem? (zeros n) i ≡ some 0
get_elem?-zeros zero i h = absurd (omega arith)
get_elem?-zeros (suc n) zero h = refl
get_elem?-zeros (suc n) (suc i) h = get_elem?-zeros n i (omega arith)

at-some : (bytes : List ℕ) (i b : ℕ) → get_elem? bytes i ≡ some b → at bytes i ≡ ok b
at-some bytes i b e = ap (λ (o : Option ℕ). elim o [ none ↦ err index_error | some b ↦ ok b ]) e

module _ (front : List ℕ) (b n : ℕ) (set : 0 < b) where
  abbrev pub padded : List ℕ
  padded = front ++ (b ∷ zeros n)

  last_byte : at padded (length front) ≡ ok b
  last_byte =
      at-some padded (length front) b
        (ground (arith, get_elem?-append front (b ∷ zeros n) (length front)))

  pad_byte : (l : ℕ) → l < n → at padded (suc (length front + l)) ≡ ok 0
  pad_byte l h =
      let behind : suc (length front + l) - length front ≡ suc l = omega arith in
      let t : ltb (suc (length front + l)) (length front) ≡ false = ground arith in
      at-some padded (suc (length front + l)) 0 (
        get_elem?-append front (b ∷ zeros n) (suc (length front + l))
        ∙ rw (t, behind) (get_elem?-zeros n l h))

  -- Zeros behind an id are cut off, down to its last byte.
  trim-padded : (l : ℕ) → l ≤ n → trim padded (suc (length front + l)) ≡ ok (suc (length front))
  unfolding trim
  trim-padded zero k =
      let e : length front + 0 ≡ length front = omega arith in
      let t : (b == 0) ≡ false = ground arith in rw (e, last_byte, t) refl
  trim-padded (suc l) k =
      let e : length front + suc l ≡ suc (length front + l) = omega arith in
      let t : (suc (length front + l) == 0) ≡ false = ground arith in
      rw (e, pad_byte l k, t) (trim-padded l (omega arith))

  get_id_str-padded :
      {A : Type 0} (decode : List ℕ → Result A)
      → get_id_str decode padded ≡ decode (front ++ (b ∷ []))
  unfolding get_id_str
  get_id_str-padded decode =
      let len : length padded ≡ suc (length front + n) =
        omega (arith, length-append front (b ∷ zeros n), length-zeros n) in
      let whole : take (suc (length front)) padded ≡ front ++ (b ∷ []) = id_front front in
      ap (λ t. trim padded t >>= λ l. decode (take l padded)) len
      ∙ ap (λ (r : Result ℕ). r >>= λ l. decode (take l padded)) (trim-padded n (omega arith))
      ∙ ap decode whole
    where
      id_front : (xs : List ℕ) → take (suc (length xs)) (xs ++ (b ∷ zeros n)) ≡ xs ++ (b ∷ [])
      id_front [] = refl
      id_front (x ∷ xs) = ap (λ t. x ∷ t) (id_front xs)

-- The bytes behind the id, in the order of the picture in the source.
abbrev pub fields : {A : Type 0} → Head A → List ℕ → List ℕ
fields h rest =
    h.sync
    ∷ h.version
    ∷ h.checksum % 256
    ∷ h.checksum / 256 % 256
    ∷ h.len_kids
    ∷ h.len_sub
    ∷ h.len_k
    ∷ h.len_var
    ∷ rest

module _ {A : Type 0} (decode : List ℕ → Result A) where
  parse_eight :
      (h : Head A) (rest id : List ℕ)
      → length id ≡ size_id
      → get_id_str decode id ≡ ok h.id
      → h.version < 16
      → h.flags ≡ 0
      → h.checksum < 0x1_0000
      → parse decode (id ++ fields h rest) ≡ ok h
  unfolding parse
  parse_eight h rest (x0 ∷ x1 ∷ x2 ∷ x3 ∷ x4 ∷ x5 ∷ x6 ∷ x7 ∷ []) len text v f c =
      let no_flags : h.version / 16 ≡ 0 = omega arith in
      let flags : h.version / 16 ≡ h.flags = omega arith in
      let version : h.version % 16 ≡ h.version = omega arith in
      let sum : from_le (h.checksum % 256 ∷ h.checksum / 256 % 256 ∷ []) ≡ h.checksum =
        omega arith in
      let got : A → Head A = λ id. record h {
        id = id;
        version = h.version % 16;
        flags = h.version / 16;
        checksum = from_le (h.checksum % 256 ∷ h.checksum / 256 % 256 ∷ []);
      } in
      ap (λ (r : Result A). r >>= λ id. guard (h.version / 16 == 0) assertion_error >> ok (got id))
        text
      ∙ ap (λ t. guard (t == 0) assertion_error >> ok (got h.id)) no_flags
      ∙ ap ok (λ i. record h { version = version i; flags = flags i; checksum = sum i })
  parse_eight h rest [] len text v f c = absurd (omega arith)
  parse_eight h rest (x0 ∷ []) len text v f c = absurd (omega arith)
  parse_eight h rest (x0 ∷ x1 ∷ []) len text v f c = absurd (omega arith)
  parse_eight h rest (x0 ∷ x1 ∷ x2 ∷ []) len text v f c = absurd (omega arith)
  parse_eight h rest (x0 ∷ x1 ∷ x2 ∷ x3 ∷ []) len text v f c = absurd (omega arith)
  parse_eight h rest (x0 ∷ x1 ∷ x2 ∷ x3 ∷ x4 ∷ []) len text v f c = absurd (omega arith)
  parse_eight h rest (x0 ∷ x1 ∷ x2 ∷ x3 ∷ x4 ∷ x5 ∷ []) len text v f c = absurd (omega arith)
  parse_eight h rest (x0 ∷ x1 ∷ x2 ∷ x3 ∷ x4 ∷ x5 ∷ x6 ∷ []) len text v f c = absurd (omega arith)
  parse_eight h rest (x0 ∷ x1 ∷ x2 ∷ x3 ∷ x4 ∷ x5 ∷ x6 ∷ x7 ∷ x8 ∷ xs) len text v f c =
      absurd (omega arith)

  -- An id of up to eight bytes that does not end in a zero, padded with zeros, and the fields of a
  -- head behind it are parsed as this head, whatever follows, if the version fits in four bits,
  -- no flag is set, the checksum fits in two bytes, and the id is decoded as text.
  pub parse-fields :
      (h : Head A) (front : List ℕ) (b n : ℕ) (rest : List ℕ)
      → 0 < b
      → length front + 1 + n ≡ size_id
      → decode (front ++ (b ∷ [])) ≡ ok h.id
      → h.version < 16
      → h.flags ≡ 0
      → h.checksum < 0x1_0000
      → parse decode ((front ++ (b ∷ zeros n)) ++ fields h rest) ≡ ok h
  parse-fields h front b n rest set len text v f c =
      parse_eight h rest (front ++ (b ∷ zeros n))
        (omega (arith, length-append front (b ∷ zeros n), length-zeros n))
        (get_id_str-padded front b n set decode ∙ text) v f c
