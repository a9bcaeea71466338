-- ===== src/Assembler/Documents.antt =====
-- Pages and documents, of pdf_ingestion/pipeline/models.py, and the dicts of text blocks and tables
-- that pdf_ingestion/pipeline/assembler.py reads. A coordinate is a whole number of parts of a point.
use smart_pdf_extractor.Prelude.{ℕ, ℤ, String, Bool, Option, List, Text}
use smart_pdf_extractor.Dict.{Dict}

pub record Token : Type 0 where
  pub text : Text
  pub bbox : List ℤ
  pub confidence : ℕ

-- A text block: its box is missing, or is a list of numbers.
pub record Block : Type 0 where
  pub text : Text
  pub bbox : Option (List ℤ)

abbrev pub Row : Type 0
Row = List Text

pub record Table : Type 0 where
  pub page_number : Option ℕ
  pub headers : List Text
  pub rows : List Row
  pub page_range : Option (List ℕ)
  pub multi_page : Bool

pub record PageOutput : Type 0 where
  pub page_number : ℕ
  pub classification : String
  pub tokens : List Token
  pub tables : List Table
  pub text_blocks : List Block

pub record AssembledDocument : Type 0 where
  pub blocks : List Block
  pub tables : List Table
  pub token_stream : List Token
  pub total_pages : ℕ
  pub page_numbers : List ℕ
  pub classifications : Dict ℕ String
