-- ===== src/Connectors/Boards/Sitemaps.antt =====
-- The URLs in the sitemaps of app/connectors/rocket_jobs.py and app/connectors/bulldogjob.py, and
-- parse_sitemap_locs of app/connectors/sitemap.py.
use recru_flow.Base.{
  String, Bool, Option, none, some, List, [], ◌∷◌, ◌++◌, if◌then◌else◌, get_or, filter, find,
}
use recru_flow.Data.Text.{strip, contains, is_empty}
use recru_flow.Data.Json.{Fields, lookup}
use recru_flow.Connectors.ProxyPool.{Outside}
use recru_flow.Connectors.Http.{Outcome, Fetched, got, nothing, blocked, Net, fetch}
use recru_flow.Ingestion.Normalize.{has_text}
use recru_flow.Ingestion.Persist.{Host, str_of}

-- The texts of the elements that were found, without those that have none.
unfoldable pub stripped_locs : List (Option String) → List String
unfolding strip is_empty
stripped_locs [] = []
stripped_locs (none ∷ texts) = stripped_locs texts
stripped_locs (some text ∷ texts) =
    let rest = stripped_locs texts in if is_empty text then rest else strip text ∷ rest

-- `find_locs xml tag` is the XML parser: what the `loc` elements say, or none for text that is no XML.
unfoldable pub parse_sitemap_locs :
    (String → String → Option (List (Option String))) → String → String → List String
unfolding stripped_locs
parse_sitemap_locs find_locs xml_text tag = elim (find_locs xml_text tag) [
  | none ↦ []
  | some texts ↦ stripped_locs texts
]

-- `JobBoardConnector.build_url`
unfoldable pub build_url : Host → String → Fields → String
unfolding str_of lookup
build_url host default_url config = elim (lookup "endpoint_url" config) [
  | none ↦ default_url
  | some url ↦ str_of host url
]

-- The URLs of a part that were not seen before, behind those that were.
unfoldable pub add_unseen : List String → List String → List String
unfolding has_text
add_unseen all_urls [] = all_urls
add_unseen all_urls (url ∷ urls) =
    add_unseen (if has_text url all_urls then all_urls else all_urls ++ (url ∷ [])) urls

-- `all_urls if all_urls else None`
abbrev some_urls : List String → Fetched (List String)
some_urls [] = nothing
some_urls (url ∷ urls) = got (url ∷ urls)

module _ (host : Host) (outside : Outside)
    (send : List (String × Outcome String) → String → String → Outcome String)
    (find_locs : String → String → Option (List (Option String))) where
  -- `fetch_text`, which decodes nothing.
  abbrev fetch_text : String → Net String → Fetched String × Net String
  fetch_text = fetch outside send (λ text. some text)

  -- The parts of an index of sitemaps; a part that cannot be fetched is left out, and a block is raised.
  unfoldable pub read_parts :
      List String → List String → Net String → Fetched (List String) × Net String
  unfolding fetch parse_sitemap_locs add_unseen
  read_parts [] all_urls net = (some_urls all_urls, net)
  read_parts (sub_url ∷ sub_urls) all_urls net =
      let (sub_xml, net') = fetch_text sub_url net in
      elim sub_xml [
        | got xml ↦
            read_parts sub_urls (add_unseen all_urls (parse_sitemap_locs find_locs xml "url")) net'
        | nothing ↦ read_parts sub_urls all_urls net'
        | blocked status ↦ (blocked status, net')
      ]

  unfoldable pub read_index : List String → Net String → Fetched (List String) × Net String
  unfolding read_parts
  read_index [] net = (nothing, net)
  read_index (sub_url ∷ sub_urls) net = read_parts (sub_url ∷ sub_urls) [] net

  -- A sitemap that names pages, or else the index that it is.
  unfoldable pub read_sitemap :
      List String → List String → Net String → Fetched (List String) × Net String
  unfolding read_index
  read_sitemap [] sub_urls net = read_index sub_urls net
  read_sitemap (url ∷ urls) sub_urls net = (got (url ∷ urls), net)

  -- `RocketJobsConnector.fetch_sitemap_urls`
  unfoldable pub rocket_jobs_urls : Fields → Net String → Fetched (List String) × Net String
  unfolding fetch read_sitemap build_url parse_sitemap_locs
  rocket_jobs_urls config net =
      let (xml_text, net') =
        fetch_text (build_url host "https://rocketjobs.pl/sitemaps/active-jobs.xml" config) net in
      elim xml_text [
        | got xml ↦
            read_sitemap (parse_sitemap_locs find_locs xml "url")
              (parse_sitemap_locs find_locs xml "sitemap") net'
        | nothing ↦ (nothing, net')
        | blocked status ↦ (blocked status, net')
      ]

  -- `gunzip` decodes a response, and `is_job_url` is the match of `_JOB_URL_PATTERN`.
  module _ (gunzip : String → Option String) (is_job_url : String → Bool) where
    -- `fetch_gzip_xml`
    abbrev fetch_gzip_xml : String → Net String → Fetched String × Net String
    fetch_gzip_xml = fetch outside send gunzip

    -- `jobs_sitemap_url`
    unfoldable pub jobs_sitemap_url : String → List String → String
    unfolding find contains
    jobs_sitemap_url first rest = get_or (find (λ url. contains url "jobs") (first ∷ rest)) first

    unfoldable pub read_jobs : List String → Net String → Fetched (List String) × Net String
    unfolding fetch jobs_sitemap_url parse_sitemap_locs filter
    read_jobs [] net = (nothing, net)
    read_jobs (first ∷ rest) net =
        let (jobs_xml, net') = fetch_gzip_xml (jobs_sitemap_url first rest) net in
        elim jobs_xml [
          | got xml ↦ (got (filter is_job_url (parse_sitemap_locs find_locs xml "url")), net')
          | nothing ↦ (nothing, net')
          | blocked status ↦ (blocked status, net')
        ]

    -- `BulldogjobConnector.fetch_sitemap_urls`
    unfoldable pub bulldogjob_urls : Fields → Net String → Fetched (List String) × Net String
    unfolding fetch read_jobs build_url parse_sitemap_locs
    bulldogjob_urls config net =
        let (index_xml, net') =
          fetch_gzip_xml (build_url host "https://bulldogjob.com/sitemap.en.xml.gz" config) net in
        elim index_xml [
          | got xml ↦ read_jobs (parse_sitemap_locs find_locs xml "sitemap") net'
          | nothing ↦ (nothing, net')
          | blocked status ↦ (blocked status, net')
        ]
