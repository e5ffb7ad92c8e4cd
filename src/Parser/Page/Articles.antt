-- ===== src/Parser/Page/Articles.antt =====
-- The articles of a page are complete, clean and counted.
use habr_parser.Base.{
  ◌+◌, ◌≡◌, ◌≢◌, refl, List, [], ◌∷◌, ◌++◌, true, false, ◌||◌, ◌⊎◌, inl, inr, Option, none, some,
  arith, Bytes, utf8, All, length, is_empty, is_empty→nil, if_split,
}
use habr_parser.Double.{Double}
use habr_parser.Messages.{ParsedArticle}
use habr_parser.Parser.Trim.{trim, trim-trim}
use habr_parser.Parser.Page.{
  Dom, ParseResult, starts_with, absolute_url, text_of, attribute_of, text_at, attribute_at,
  hub_texts, hubs_of, trimmed, read_article, parse_nodes, parse_page, parse_doc, parse_found,
  articles_query,
}

abbrev pub IsTrimmed : Bytes → Type 0
IsTrimmed s = trim s ≡ s

-- The link for a reference: none where there is no reference, the reference itself where it begins
-- with http, and else the reference behind the address of the site.
abbrev pub IsLink : Bytes → Bytes → Bytes → Type 0
IsLink base_url href url =
    ((href ≡ []) × (url ≡ []))
    ⊎ ((starts_with (utf8 "http") href ≡ true) × (url ≡ href))
    ⊎ ((href ≢ []) × (starts_with (utf8 "http") href ≡ false) × (url ≡ base_url ++ href))

abbrev pub IsAbsolute : Bytes → Bytes → Type 0
IsAbsolute base_url url = (href : Bytes) × IsTrimmed href × IsLink base_url href url

pub record IsClean (base_url : Bytes) (a : ParsedArticle) : Type 0 where
  pub article_id : (a.article_id ≢ []) × IsTrimmed a.article_id
  pub title : (a.title ≢ []) × IsTrimmed a.title
  pub url : IsAbsolute base_url a.url
  pub author : IsTrimmed a.author
  pub published_at : IsTrimmed a.published_at
  pub hubs : All (λ h. (h ≢ []) × IsTrimmed h) a.hubs
  pub complexity : IsTrimmed a.complexity
  pub reading_time : IsTrimmed a.reading_time

is_empty-ne-nil : (s : Bytes) → is_empty s ≡ false → s ≢ []
is_empty-ne-nil s h e = ground arith

absolute_url-IsLink : (base_url href : Bytes) → IsLink base_url href (absolute_url base_url href)
unfolding absolute_url
absolute_url-IsLink base_url href =
    if_split (IsLink base_url href) (is_empty href) (λ e. inl (is_empty→nil e, refl))
      λ e.
        if_split (IsLink base_url href) (starts_with (utf8 "http") href) (λ h. inr (inl (h, refl)))
          λ h. inr (inr (is_empty-ne-nil href e, h, refl))

trim-nil : trim [] ≡ []
unfolding trim
trim-nil = refl

module _ (dom : Dom) where
  text_of-IsTrimmed : (node : Option dom.Node) → IsTrimmed (text_of dom node)
  unfolding text_of
  text_of-IsTrimmed none = trim-nil
  text_of-IsTrimmed (some node) = elim (dom.get_content node) as (λ c. IsTrimmed (trimmed dom c)) [
    | none ↦ trim-nil
    | some text ↦ trim-trim text
  ]

  attribute_of-IsTrimmed :
      (node : Option dom.Node) (name : Bytes) → IsTrimmed (attribute_of dom node name)
  unfolding attribute_of
  attribute_of-IsTrimmed none name = trim-nil
  attribute_of-IsTrimmed (some node) name =
      elim (dom.get_prop node name) as (λ c. IsTrimmed (trimmed dom c)) [
        | none ↦ trim-nil
        | some text ↦ trim-trim text
      ]

  hub_texts_clean :
      (nodes : List dom.Node) → All (λ h. (h ≢ []) × IsTrimmed h) (hub_texts dom nodes)
  unfolding hub_texts
  hub_texts_clean [] = tt
  hub_texts_clean (node ∷ nodes) =
      let rest = hub_texts_clean nodes in
      if_split (All (λ h. (h ≢ []) × IsTrimmed h)) (is_empty (text_of dom (some node))) (λ _. rest)
        (λ e. ((is_empty-ne-nil _ e, text_of-IsTrimmed (some node)), rest))

  hubs_of_clean :
      (found : Option (List dom.Node)) → All (λ h. (h ≢ []) × IsTrimmed h) (hubs_of dom found)
  hubs_of_clean none = tt
  hubs_of_clean (some nodes) = hub_texts_clean nodes

  module _ (doc : dom.Doc) where
    module _ {F : Type 0} (fl : Double F) (base_url : Bytes) where
      read_article-IsClean :
          (node : dom.Node)
          → let a = read_article dom doc fl base_url node in
            is_empty a.article_id ≡ false → is_empty a.title ≡ false → IsClean base_url a
      unfolding read_article text_at attribute_at
      read_article-IsClean node id title = record {
        article_id = (is_empty-ne-nil _ id, attribute_of-IsTrimmed _ _);
        title = (is_empty-ne-nil _ title, text_of-IsTrimmed _);
        url = (_, attribute_of-IsTrimmed _ _, absolute_url-IsLink base_url _);
        author = text_of-IsTrimmed _;
        published_at = attribute_of-IsTrimmed _ _;
        hubs = hubs_of_clean _;
        complexity = text_of-IsTrimmed _;
        reading_time = text_of-IsTrimmed _;
      }

      parse_nodes-IsClean :
          (nodes : List dom.Node)
          → All (IsClean base_url) (parse_nodes dom doc fl base_url nodes).articles
      unfolding parse_nodes
      parse_nodes-IsClean [] = tt
      parse_nodes-IsClean (node ∷ nodes) =
          let a = read_article dom doc fl base_url node in
          let rest = parse_nodes-IsClean nodes in
          if_split (λ (r : ParseResult). All (IsClean base_url) r.articles)
            (is_empty a.article_id || is_empty a.title) (λ _. rest)
            (λ e. (read_article-IsClean node (ground arith) (ground arith), rest))

      -- Every article node is either returned or counted as skipped.
      pub parse_nodes_counted :
          (nodes : List dom.Node)
          → let r = parse_nodes dom doc fl base_url nodes in
            length r.articles + r.skipped ≡ length nodes
      unfolding parse_nodes
      parse_nodes_counted [] = omega arith
      parse_nodes_counted (node ∷ nodes) =
          let a = read_article dom doc fl base_url node in
          if_split (λ (r : ParseResult). length r.articles + r.skipped ≡ length (node ∷ nodes))
            (is_empty a.article_id || is_empty a.title)
            (λ _. omega (arith, parse_nodes_counted nodes))
            (λ _. omega (arith, parse_nodes_counted nodes))

  -- Whatever the page holds, each article that is returned has an id and a title, only hubs that are
  -- not empty, and texts that are trimmed; and its link is, by a trimmed reference, none if that is
  -- empty, the reference if it begins with http, and else the reference behind the base address.
  pub parse_page-IsClean :
      {F : Type 0} (fl : Double F) (base_url html : Bytes)
      → All (IsClean base_url) (parse_page dom fl base_url html).articles
  unfolding parse_page
  parse_page-IsClean fl base_url html =
      let P = λ (r : ParseResult). All (IsClean base_url) r.articles in
      if_split P (is_empty html) (λ _. tt)
        λ _. elim (dom.read_memory html) as (λ d. P (parse_doc dom fl base_url d)) [
          | none ↦ tt
          | some doc ↦
              if_split P (dom.new_context doc)
                (λ _.
                  elim (dom.eval_xpath doc none articles_query)
                    as (λ n. P (parse_found dom fl base_url doc n)) [
                      | none ↦ tt
                      | some nodes ↦ parse_nodes-IsClean doc fl base_url nodes
                    ])
                (λ _. tt)
        ]
