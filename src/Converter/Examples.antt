-- ===== src/Converter/Examples.antt =====
-- The converter at concrete inputs.
use reverse_engineearing.Base.{ℕ, [], ◌++◌, ◌≡◌, some, List, arith, codes}
use reverse_engineearing.Converter.{translate1, translate2}
use reverse_engineearing.Converter.RoundTrip.{groups, tail_zeros, Follows, translate2-translate1}
use reverse_engineearing.Converter.Encode.{encode, translate1-encode}

abbrev four_letters : List ℕ
four_letters = codes "AabZ"

translate1-encode_example : translate1 0x12345678 four_letters ≡ encode four_letters
translate1-encode_example =
    translate1-encode 0x12345678 four_letters (omega arith)
      (omega arith, (omega arith, (omega arith, (omega arith, tt))))

-- Two letters, and their text in base 64 that ends in an equals sign.
translate2-translate1_example :
    translate2 3 [] (translate1 7 (codes "ab") ++ [])
    ≡ some (codes "ab" ++ tail_zeros (codes "ab"), 2)
unfolding groups Follows
translate2-translate1_example =
    translate2-translate1 7 3 (codes "ab") [] (omega arith) (omega arith)
      (omega arith, (omega arith, tt)) (omega arith) tt
