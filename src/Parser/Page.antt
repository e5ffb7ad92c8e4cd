-- ===== src/Parser/Page.antt =====
-- `HtmlParser::Parse` of services/parser/src/html_parser.cpp: the articles of a listing page. The
-- calls of libxml2 are the fields of `Dom`; `none` stands for a null pointer.
pub mod Articles
pub mod Lines
use habr_parser.Base.{
  ℕ, suc, ◌+◌, List, [], ◌∷◌, ◌++◌, Bool, true, false, ◌||◌, Option, none, some, Bytes, utf8,
  written, is_empty, bytes_eq, if◌then◌else◌, pos, ◌==◌, ◌&&◌,
}
use Prim.Native.String.{String}
use habr_parser.Double.{Double}
use habr_parser.Messages.{ParsedArticle}
use habr_parser.Parser.Trim.{trim}
use habr_parser.Parser.Count.{parse_count}

pub record Dom : Type 1 where
  pub Doc : Type 0
  pub Node : Type 0
  -- `htmlReadMemory` with the options and names that the program gives
  pub read_memory : Bytes → Option Doc
  -- whether `xmlXPathNewContext` gives a context
  pub new_context : Doc → Bool
  -- `xmlXPathEvalExpression` from a node, or from the document: the node set, if there is one
  pub eval_xpath : Doc → Option Node → Bytes → Option (List Node)
  pub get_content : Node → Option Bytes
  pub get_prop : Node → Bytes → Option Bytes

pub has_class : Bytes → Bytes
has_class class_name =
    written
      (utf8 "contains(concat(' ', normalize-space(@class), ' '), ' " ∷ class_name ∷ utf8 " ')" ∷ [])

-- `tag[has_class(name)]`, as the queries are put together.
abbrev element : String → String → Bytes
element tag class_name = written (utf8 tag ∷ utf8 "[" ∷ has_class (utf8 class_name) ∷ utf8 "]" ∷ [])

pub articles_query : Bytes
articles_query = element "//article" "tm-articles-list__item"

pub title_query : Bytes
title_query = element ".//a" "tm-title__link"

pub author_query : Bytes
author_query = element ".//a" "tm-user-info__username"

pub time_query : Bytes
time_query = utf8 ".//time[@datetime]"

pub views_query : Bytes
views_query =
    written (utf8 ".//span[" ∷ has_class (utf8 "tm-icon-counter__value") ∷ utf8 " and @title]" ∷ [])

pub votes_query : Bytes
votes_query = element ".//span" "tm-votes-meter__value"

pub bookmarks_query : Bytes
bookmarks_query = element ".//button" "bookmarks-button" ++ element "//span" "counter"

pub comments_query : Bytes
comments_query = element ".//a" "article-comments-counter-link" ++ element "//span" "value"

pub hubs_query : Bytes
hubs_query = element ".//a" "tm-publication-hub__link"

pub complexity_query : Bytes
complexity_query = element ".//span" "tm-article-complexity__label"

pub reading_time_query : Bytes
reading_time_query = element ".//span" "tm-article-reading-time__label"

-- `href.rfind("http", 0) == 0`
abbrev pub starts_with : Bytes → Bytes → Bool
starts_with [] s = true
starts_with (p ∷ ps) [] = false
starts_with (p ∷ ps) (c ∷ s) = (p == c) && starts_with ps s

unfoldable pub absolute_url : Bytes → Bytes → Bytes
absolute_url base_url href =
    if is_empty href then [] else if starts_with (utf8 "http") href then href else base_url ++ href

pub record ParseResult : Type 0 where
  pub articles : List ParsedArticle
  pub skipped : ℕ

abbrev pub no_articles : ParseResult
no_articles = record { articles = []; skipped = 0 }

module _ (dom : Dom) where
  abbrev head_of : List dom.Node → Option dom.Node
  head_of [] = none
  head_of (n ∷ ns) = some n

  -- `FirstNode`
  abbrev first_node : Option (List dom.Node) → Option dom.Node
  first_node none = none
  first_node (some nodes) = head_of nodes

  abbrev pub trimmed : Option Bytes → Bytes
  trimmed none = []
  trimmed (some text) = trim text

  unfoldable pub text_of : Option dom.Node → Bytes
  text_of none = []
  text_of (some node) = trimmed (dom.get_content node)

  unfoldable pub attribute_of : Option dom.Node → Bytes → Bytes
  attribute_of none name = []
  attribute_of (some node) name = trimmed (dom.get_prop node name)

  -- The loop over the hubs.
  unfoldable pub hub_texts : List dom.Node → List Bytes
  hub_texts [] = []
  hub_texts (node ∷ nodes) =
      let hub = text_of (some node) in
      let rest = hub_texts nodes in if is_empty hub then rest else hub ∷ rest

  abbrev pub hubs_of : Option (List dom.Node) → List Bytes
  hubs_of none = []
  hubs_of (some nodes) = hub_texts nodes

  module _ (doc : dom.Doc) where
    unfoldable pub text_at : dom.Node → Bytes → Bytes
    text_at node query = text_of (first_node (dom.eval_xpath doc (some node) query))

    unfoldable pub attribute_at : dom.Node → Bytes → Bytes → Bytes
    attribute_at node query name =
        attribute_of (first_node (dom.eval_xpath doc (some node) query)) name

    module _ {F : Type 0} (fl : Double F) (base_url : Bytes) where
      -- The article at a node, whether it is kept or not.
      unfoldable pub read_article : dom.Node → ParsedArticle
      read_article node =
          let title_node = first_node (dom.eval_xpath doc (some node) title_query) in
          let views_title = attribute_at node views_query (utf8 "title") in
          record {
            article_id = attribute_of (some node) (utf8 "id");
            url = absolute_url base_url (attribute_of title_node (utf8 "href"));
            title = text_of title_node;
            author = text_at node author_query;
            published_at = attribute_at node time_query (utf8 "datetime");
            hubs = hubs_of (dom.eval_xpath doc (some node) hubs_query);
            complexity = text_at node complexity_query;
            reading_time = text_at node reading_time_query;
            votes = parse_count fl (text_at node votes_query);
            views =
                parse_count fl
                  (if is_empty views_title then text_at node views_query else views_title);
            bookmarks = parse_count fl (text_at node bookmarks_query);
            comments = parse_count fl (text_at node comments_query);
          }

      -- The loop over the article nodes.
      unfoldable pub parse_nodes : List dom.Node → ParseResult
      parse_nodes [] = no_articles
      parse_nodes (node ∷ nodes) =
          let article = read_article node in
          let rest = parse_nodes nodes in
          if is_empty article.article_id || is_empty article.title
          then record rest { skipped = rest.skipped + 1 }
          else record rest { articles = article ∷ rest.articles }

  module _ {F : Type 0} (fl : Double F) (base_url : Bytes) where
    abbrev pub parse_found : dom.Doc → Option (List dom.Node) → ParseResult
    parse_found doc none = no_articles
    parse_found doc (some nodes) = parse_nodes doc fl base_url nodes

    abbrev pub parse_doc : Option dom.Doc → ParseResult
    parse_doc none = no_articles
    parse_doc (some doc) =
        if dom.new_context doc
        then parse_found doc (dom.eval_xpath doc none articles_query)
        else no_articles

    -- `HtmlParser::Parse`
    unfoldable pub parse_page : Bytes → ParseResult
    parse_page html = if is_empty html then no_articles else parse_doc (dom.read_memory html)
