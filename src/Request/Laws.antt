-- ===== src/Request/Laws.antt =====
-- The query of a request, in code points and in bytes.
use mathlib.Core.List.{append_assoc}
use ycmd_cpp.Base.{
  ℕ, zero, suc, ◌+◌, ◌-◌, ◌^◌, ◌<◌, ◌≤◌, ◌≡◌, refl, sym, ap, ◌∙◌, true, some, List, [], ◌∷◌, ◌++◌,
  arith, leb, length, take, drop, length-append, take-length-append, drop-length-append,
  length-drop,
}
use ycmd_cpp.Request.{
  TextCoding, encode_all, Line, line_bytes, line_value, sub_size_t, substr, start_column, query,
  query_bytes,
}

substr_middle :
    {A : Type 0} (p n : ℕ) (xs before typed after : List A)
    → p ≡ length before
    → n ≡ length typed
    → xs ≡ before ++ (typed ++ after)
    → substr p n xs ≡ some typed
unfolding substr
substr_middle p n xs before typed after hp hn hxs =
    let size = length-append before (typed ++ after) in
    let inside : leb (length before) (length (before ++ (typed ++ after))) ≡ true =
      ground (arith, size) in
    rw
      (
        hp,
        hn,
        hxs,
        substr,
        inside,
        drop-length-append before (typed ++ after),
        take-length-append typed after,
      )
      refl

take-all : {A : Type 0} (n : ℕ) (xs : List A) → length xs ≤ n → take n xs ≡ xs
take-all zero [] h = refl
take-all zero (x ∷ xs) h = absurd (omega (arith, h))
take-all (suc n) [] h = refl
take-all (suc n) (x ∷ xs) h = ap (◌∷◌ x) (take-all n xs (omega (arith, h)))

-- A count past the end gives the rest.
substr-rest :
    {A : Type 0} (p n : ℕ) (xs : List A)
    → p ≤ length xs
    → length xs ≤ n
    → substr p n xs ≡ some (drop p xs)
unfolding substr
substr-rest p n xs h k =
    let inside : leb p (length xs) ≡ true = ground (arith, h) in
    rw (substr, inside, take-all n (drop p xs) (omega (arith, k, length-drop p xs))) refl

-- The first code point from a position on, or the zero that ends the string.
abbrev pub head_or_zero : List ℕ → ℕ
head_or_zero [] = 0
head_or_zero (c ∷ cs) = c

module _ (coding : TextCoding) where
  encode_all-append :
      (cs ds : List ℕ) → encode_all coding (cs ++ ds) ≡ encode_all coding cs ++ encode_all coding ds
  encode_all-append [] ds = refl
  encode_all-append (c ∷ cs) ds =
      ap (◌++◌ (coding.encoded c)) (encode_all-append cs ds)
      ∙ sym (append_assoc (coding.encoded c) (encode_all coding cs) (encode_all coding ds))

  length-encode_all-take :
      (cs ds : List ℕ)
      → length (encode_all coding (take (suc (length cs)) ((cs ++ ds) ++ (0 ∷ []))))
        ≡ length (encode_all coding cs) + length (coding.encoded (head_or_zero ds))
  length-encode_all-take [] [] = omega (arith, length-append (coding.encoded 0) [])
  length-encode_all-take [] (d ∷ ds) = omega (arith, length-append (coding.encoded d) [])
  length-encode_all-take (c ∷ cs) ds = omega (
    arith,
    length-append (coding.encoded c)
        (encode_all coding (take (suc (length cs)) ((cs ++ ds) ++ (0 ∷ [])))),
    length-append (coding.encoded c) (encode_all coding cs),
    length-encode_all-take cs ds,
  )

  -- A line is `before ++ typed ++ after`, the cursor stands after `typed`, and the identifier scan
  -- gives the start of `typed`. Then the query is `typed`, and the start column is the number of bytes
  -- of `before` and of the code point that follows. Where that one has a single byte, the query in
  -- bytes encodes `typed`. Where it has more bytes than `typed` by more than one, the length wraps
  -- around, and the query in bytes is the rest of the line from the last byte of that code point. The
  -- line has fewer than 2 ^ 63 code points and bytes.
  pub query-query_bytes :
      (line : Line) (before typed after : List ℕ)
      → line_value coding line ≡ before ++ (typed ++ after)
      → line_bytes line ≡ encode_all coding (before ++ (typed ++ after))
      → length (line_value coding line) < 2 ^ 63
      → length (line_bytes line) < 2 ^ 63
      → (let width = length (coding.encoded (head_or_zero (typed ++ after))) in
          let column_num = suc (length (encode_all coding (before ++ typed))) in
          let start = suc (length before) in
          (query coding line (suc (length (before ++ typed))) start ≡ some typed)
          × (start_column coding line start ≡ length (encode_all coding before) + width)
          × (width ≡ 1 → query_bytes coding line column_num start ≡ some (encode_all coding typed))
          × (suc (length (encode_all coding typed)) < width
              → length (encode_all coding before) + width ≤ length (line_bytes line)
              → query_bytes coding line column_num start
                ≡ some (drop (length (encode_all coding before) + width - 1) (line_bytes line))))
  unfolding query start_column query_bytes
  query-query_bytes line before typed after value bytes few small =
      let start =
        ap (λ v. length (encode_all coding (take (suc (length before)) (v ++ (0 ∷ []))))) value
        ∙ length-encode_all-take before (typed ++ after) in
      let whole =
        bytes
        ∙ encode_all-append before (typed ++ after)
        ∙ ap (◌++◌ (encode_all coding before)) (encode_all-append typed after) in
      let size =
        ap length (encode_all-append before typed)
        ∙ length-append (encode_all coding before) (encode_all coding typed) in
      let all_size =
        ap length whole
        ∙ length-append (encode_all coding before)
            (encode_all coding typed ++ encode_all coding after) in
      let typed_size = length-append (encode_all coding typed) (encode_all coding after) in
      let points = ap length value ∙ length-append before (typed ++ after) in
      let typed_points = length-append typed after in
      let count =
        sub_size_t (suc (length (encode_all coding (before ++ typed))))
          (start_column coding line (suc (length before))) in
      (
        substr_middle _ _ _ before typed after (omega (arith, few, points))
            (omega (arith, few, points, typed_points, length-append before typed)) value,
        start,
        λ one.
            substr_middle _ _ _ (encode_all coding before) (encode_all coding typed)
              (encode_all coding after) (omega (arith, start, one, small, all_size))
              (omega (arith, start, one, size, small, all_size, typed_size)) whole,
        λ wide inside.
            ap (λ p. substr p count (line_bytes line)) (omega (arith, start, inside, small, wide))
            ∙ substr-rest _ count (line_bytes line) (omega (arith, inside, wide))
                (omega (arith, start, size, small, wide, inside)),
      )
