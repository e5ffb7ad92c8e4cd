-- ===== src/Parser/Page/Lines.antt =====
-- A toy document as an instance of `Dom`, on which the tests run: each line of the page is an
-- article, and every query from a node, its content and its attributes are that line.
use habr_parser.Base.{ℕ, List, [], ◌∷◌, true, Option, none, some, Bytes, ◌==◌, if◌then◌else◌}
use habr_parser.Parser.Page.{Dom}

abbrev put_first : ℕ → List Bytes → List Bytes
put_first c [] = (c ∷ []) ∷ []
put_first c (l ∷ ls) = (c ∷ l) ∷ ls

abbrev lines_of : Bytes → List Bytes
lines_of [] = [] ∷ []
lines_of (c ∷ s) = let rest = lines_of s in if c == 10 then [] ∷ rest else put_first c rest

abbrev found_in : Bytes → Option Bytes → List Bytes
found_in doc none = lines_of doc
found_in doc (some node) = node ∷ []

abbrev pub lines : Dom
lines = record {
  Doc = Bytes;
  Node = Bytes;
  read_memory = λ html. some html;
  new_context = λ _. true;
  eval_xpath = λ doc node _. some (found_in doc node);
  get_content = λ node. some node;
  get_prop = λ node _. some node;
}
