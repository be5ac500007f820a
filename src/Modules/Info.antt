-- ===== src/Modules/Info.antt =====
-- internal/modules/info.go: the description of a module, from its XML file once that is decoded.
use retrosaver.Prelude.{List, [], ◌∷◌, ◌++◌, Option, none, some, if◌then◌else◌, Text, text_eq}
use retrosaver.Chars.{split, join, fields, trim_space}

pub record Info : Type 0 where
  pub name : Text
  pub label : Text
  pub description : Text

-- The words of the lines up to the first blank one after some text.
unfoldable pub paragraph : List Text → List Text → List Text
paragraph words [] = words
paragraph words (l ∷ ls) =
    at_line words (fields l) (paragraph words ls) (paragraph (words ++ fields l) ls)
  where
    at_line : List Text → List Text → List Text → List Text → List Text
    at_line [] [] skipped taken = skipped
    at_line (w ∷ ws) [] skipped taken = w ∷ ws
    at_line words (f ∷ fs) skipped taken = taken

-- `firstParagraph`
unfoldable pub first_paragraph : Text → Text
first_paragraph s = join (32 ∷ []) (paragraph [] (split 10 s))

-- The attribute and the elements that the decoder finds.
pub record Document : Type 0 where
  pub label : Text
  pub descriptions : List Text

abbrev pub described : List Text → Text
described [] = []
described (d ∷ ds) = first_paragraph d

-- `Info`, of a document that is there and can be decoded: the bare name stands for a label that is
-- blank, and for a file that cannot be read.
unfoldable pub info : Text → Option Document → Info
info name none = record { name = name; label = name; description = [] }
info name (some doc) = record {
  name = name;
  label = if text_eq (trim_space doc.label) [] then name else trim_space doc.label;
  description = described doc.descriptions;
}
