-- ===== src/WebSearch.antt =====
-- agent/tools_builtin.go: NewWebSearchTool and WebSearchTool.Run. The HTTP client, encoding/json,
-- url.Values.Encode and the verb `%q` are parameters.
pub mod Results
use sibyl.Prelude.{
  ℕ, zero, suc, ◌≡◌, refl, sym, ap, ◌∙◌, ◌≢◌, String, Bool, true, false, true≢false, not, List, [],
  ◌∷◌, ◌++◌, Option, none, some, Result, Result-cases, ok, err, ok-inj, err-ne-ok, ◌>>=◌, ◌>>◌,
  fail_if, fail_on, map_err, if◌then◌else◌, ◌==◌, eq_iff, Bool-cases, inl, inr, is_empty, take,
}
use sibyl.Prelude.Int.{ℤ, pos, negsuc}
use sibyl.Prelude.Maps.{GoMap}
use sibyl.Prelude.Texts.{joined, trim_white}
use text.Mathlib.TextLemmas.{append-eq-nil_iff}
use sibyl.Http.{HttpRequest, HttpResponse, HttpClient, is_success}

pub record WebSearchTool : Type 0 where
  pub user_agent : String
  pub max_results : ℤ

abbrev pub new_web_search_tool : WebSearchTool
new_web_search_tool = record { user_agent = "sibyl-agent/0.1"; max_results = pos 3 }

pub record RelatedTopic : Type 0 where
  pub text : String
  pub url : String

pub record InstantAnswer : Type 0 where
  pub abstract_text : String
  pub abstract_url : String
  pub abstract_source : String
  pub heading : String
  pub answer : String
  pub answer_type : String
  pub related_topics : List RelatedTopic

pub data WebSearchError (F : Type 0) : Type 0 where
  query_is_required : WebSearchError F
  build_failed http_failed read_failed parse_failed : F → WebSearchError F
  bad_status : ℕ → WebSearchError F

abbrev part_if : String → String → String
part_if field text = if field == "" then "" else text

abbrev pub direct_answer : InstantAnswer → String
direct_answer a =
    part_if a.answer
      (joined "Direct answer (" (joined a.answer_type (joined "): " (joined a.answer "\n"))))

abbrev pub abstract_of : InstantAnswer → String
abstract_of a = part_if a.abstract_text (
    joined a.heading (
      joined " — " (
        joined a.abstract_text (
          joined " (" (
            joined a.abstract_source (
              joined ")\n"
                (part_if a.abstract_url (joined "Source: " (joined a.abstract_url "\n")))))))))

abbrev pub topic_lines : RelatedTopic → String
topic_lines r =
    part_if r.text
      (joined "- " (joined r.text (joined "\n" (part_if r.url (joined "  " (joined r.url "\n"))))))

-- The loop over the topics, which counts the ones without a text too.
unfoldable pub related_lines : ℕ → List RelatedTopic → String
related_lines zero topics = ""
related_lines (suc n) [] = ""
related_lines (suc n) (r ∷ topics) = joined (topic_lines r) (related_lines n topics)

abbrev pub result_limit : ℤ → ℕ
result_limit (pos zero) = 3
result_limit (pos (suc n)) = suc n
result_limit (negsuc n) = 3

abbrev pub related : ℤ → List RelatedTopic → String
related max [] = ""
related max (r ∷ topics) = joined "\nRelated:\n" (related_lines (result_limit max) (r ∷ topics))

abbrev pub search_request : (GoMap String → String) → String → String → HttpRequest
search_request encode agent query = record {
  method = "GET";
  url =
      joined "https://api.duckduckgo.com/?" (
        encode
          (("q", query) ∷ ("format", "json") ∷ ("no_html", "1") ∷ ("skip_disambig", "1") ∷ []));
  headers = if agent == "" then [] else ("User-Agent", agent) ∷ [];
  body = "";
}

module _ (quote : String → String) where
  abbrev pub result_or_none : String → String → String
  result_or_none query result =
      if result == "" then joined "No results found for " (joined (quote query) ".") else result

  unfoldable pub render_results : ℤ → String → InstantAnswer → String
  render_results max query a = result_or_none query (
      trim_white (joined (direct_answer a) (joined (abstract_of a) (related max a.related_topics))))

  module _ {F : Type 0} (client : HttpClient F) (encode : GoMap String → String)
      (decode : String → Result F InstantAnswer) where
    abbrev pub read_answer : ℤ → String → HttpResponse F → Result (WebSearchError F) String
    read_answer max query r = do
      map_err read_failed (fail_on r.read_error)
      fail_if (not (is_success r.status_code)) (bad_status r.status_code)
      a ← map_err parse_failed (decode r.body)
      ok (render_results max query a)

    abbrev pub search_for : WebSearchTool → String → Result (WebSearchError F) String
    search_for tool query = do
      fail_if (query == "") query_is_required
      let request = search_request encode tool.user_agent query
      map_err build_failed (fail_on (client.cannot_build "GET" request.url))
      r ← map_err http_failed (client.send request)
      read_answer tool.max_results query r

    -- `q` is the argument, or "" where it is no text.
    unfoldable pub run_web_search : WebSearchTool → String → Result (WebSearchError F) String
    run_web_search tool q = search_for tool (trim_white q)
