-- ===== src/Tests/Tags.antt =====
-- Tags files at concrete inputs.
use ycmd_cpp.Base.{◌≡◌, refl, some, [], ◌∷◌, ◌++◌, map, Bytes}
use ycmd_cpp.Tags.{drop_prefix, lang_str, parse_tag, stored, extract_identifiers}
use ycmd_cpp.Tags.Laws.{Unseen, carriage_return, parse_tag_lem}
use ycmd_cpp.Tags.Stored.{identifiers_at, stored-extract_identifiers}
use ycmd_cpp.Tests.Data.{codes}

-- A line with two tabs before the path, that ends with a carriage return.
abbrev line : Bytes
line =
    codes "f"
    ++ (b'\t'
        ∷ b'\t'
        ∷ (codes "ab" ++ (b'\t' ∷ (codes "l\t" ++ (lang_str ++ (codes "C" ++ (b'\r' ∷ [])))))))

fields_Unseen : Unseen lang_str (codes "l\t") (lang_str ++ (codes "C" ++ (b'\r' ∷ [])))
unfolding drop_prefix
fields_Unseen = (refl, (refl, tt))

parse_tag_example :
    parse_tag line
    ≡ some (record { identifier = codes "f"; path = codes "ab"; language = codes "C" })
parse_tag_example =
    parse_tag_lem (codes "f") 1 b'a' (codes "b") (codes "l\t") b'C' [] (b'\r' ∷ []) (refl, tt) refl
      (refl, tt) fields_Unseen carriage_return tt (refl, tt)

stored-extract_identifiers_example :
    stored (extract_identifiers (λ p. p) (line ∷ codes "x" ∷ line ∷ []) []) (codes "c") (codes "ab")
    ≡ stored [] (codes "c") (codes "ab")
      ++ identifiers_at
          (λ p. p)
          (codes "c")
          (codes "ab")
          (map parse_tag (line ∷ codes "x" ∷ line ∷ []))
stored-extract_identifiers_example =
    stored-extract_identifiers (λ p. p) (line ∷ codes "x" ∷ line ∷ []) [] (codes "c") (codes "ab")
