-- ===== src/WebSearch/Results.antt =====
-- agent/tools_builtin.go: what a web search returns.
use sibyl.Prelude.{
  ℕ, zero, suc, ◌≡◌, refl, sym, ap, ◌∙◌, String, true, false, true≢false, List, [], ◌∷◌,
  Option-cases, Result, Result-cases, ok, ok-inj, err-ne-ok, ◌==◌, eq_iff, Bool-cases, inl, inr,
  take,
}
use sibyl.Prelude.Int.{ℤ, pos, negsuc}
use sibyl.Prelude.Maps.{GoMap}
use sibyl.Prelude.Texts.{joined, trim_white}
use text.Mathlib.TextLemmas.{append-eq-nil_iff}
use sibyl.Http.{HttpResponse, HttpClient, is_success}
use sibyl.WebSearch.{
  WebSearchTool, RelatedTopic, InstantAnswer, related_lines, result_limit, related, result_or_none,
  render_results, search_request, run_web_search, read_answer, topic_lines, direct_answer,
  abstract_of,
}

related_lines-take :
    (n : ℕ) (topics : List RelatedTopic) → related_lines n topics ≡ related_lines n (take n topics)
unfolding related_lines
related_lines-take zero topics = refl
related_lines-take (suc n) [] = refl
related_lines-take (suc n) (r ∷ topics) = ap (joined (topic_lines r)) (related_lines-take n topics)

related-take :
    (max : ℤ) (topics : List RelatedTopic)
    → related max topics ≡ related max (take (result_limit max) topics)
related-take (pos zero) [] = refl
related-take (pos (suc n)) [] = refl
related-take (negsuc n) [] = refl
related-take (pos zero) (r ∷ topics) =
    ap (joined "\nRelated:\n") (related_lines-take 3 (r ∷ topics))
related-take (pos (suc n)) (r ∷ topics) =
    ap (joined "\nRelated:\n") (related_lines-take (suc n) (r ∷ topics))
related-take (negsuc n) (r ∷ topics) =
    ap (joined "\nRelated:\n") (related_lines-take 3 (r ∷ topics))

-- An answer with no more related topics than the limit.
abbrev pub shortened : ℤ → InstantAnswer → InstantAnswer
shortened max a = record a { related_topics = take (result_limit max) a.related_topics }

module _ (quote : String → String) where
  none_found-ne-empty :
      (query : String) → (joined "No results found for " (joined (quote query) ".") == "") ≡ false
  none_found-ne-empty query =
      elim (Bool-cases (joined "No results found for " (joined (quote query) ".") == "")) [
        | inl empty ↦
            let nothing =
              (append-eq-nil_iff.0 (
                (eq_iff (joined "No results found for " (joined (quote query) ".")) "").0
                  empty)).0 in
            absurd (true≢false (sym ((eq_iff "No results found for " "").1 nothing)))
        | inr some_text ↦ some_text
      ]

  result_or_none-ne-empty :
      (query result : String) → (result_or_none quote query result == "") ≡ false
  result_or_none-ne-empty query result = elim (Bool-cases (result == "")) [
    | inl empty ↦ rw empty (none_found-ne-empty query)
    | inr found ↦ rw (found, found) refl
  ]

  render_results-shortened :
      (max : ℤ) (query : String) (a : InstantAnswer)
      → render_results quote max query a ≡ render_results quote max query (shortened max a)
  unfolding render_results
  render_results-shortened max query a =
      ap
        (λ t.
          result_or_none quote query
            (trim_white (joined (direct_answer a) (joined (abstract_of a) t))))
        (related-take max a.related_topics)

  render_results-ne-empty :
      (max : ℤ) (query : String) (a : InstantAnswer)
      → (render_results quote max query a == "") ≡ false
  unfolding render_results
  render_results-ne-empty max query a = result_or_none-ne-empty query (
      trim_white (joined (direct_answer a) (joined (abstract_of a) (related max a.related_topics))))

  module _ {F : Type 0} (client : HttpClient F) (encode : GoMap String → String)
      (decode : String → Result F InstantAnswer) where
    -- The decoded reply, of which the result shows no more than the limit.
    abbrev IsShown : ℤ → String → HttpResponse F → String → Type 0
    IsShown max query r out =
        (is_success r.status_code ≡ true)
        × ((a : InstantAnswer) × ((decode r.body ≡ ok a)
              × (out ≡ render_results quote max query (shortened max a))))

    read_answer-IsShown :
        (max : ℤ) (query out : String) (r : HttpResponse F)
        → read_answer quote client encode decode max query r ≡ ok out
        → ((out == "") ≡ false) × IsShown max query r out
    read_answer-IsShown max query out r h = elim (Option-cases r.read_error) [
      | inr (e, failed) ↦ err-ne-ok (rw failed at h)
      | inl whole ↦ elim (Bool-cases (is_success r.status_code)) [
        | inr refused ↦ err-ne-ok (rw (whole, refused) at h)
        | inl fine ↦ elim (Result-cases (decode r.body)) [
          | inl (e, unreadable) ↦ err-ne-ok (rw (whole, fine, unreadable) at h)
          | inr (a, read) ↦
              let same = ok-inj (rw (whole, fine, read) at h) in
              (
                rw (sym same) (render_results-ne-empty max query a),
                (fine, (a, (read, sym same ∙ render_results-shortened max query a))),
              )
        ]
      ]
    ]

    -- A search that succeeds was for a query with some text, and gives a text that is not empty: what
    -- the reply to the request for that query holds, with at most as many related topics as the tool's
    -- limit, or three where that is not positive.
    pub run_web_search-ok :
        (tool : WebSearchTool) (q out : String)
        → run_web_search quote client encode decode tool q ≡ ok out
        → ((trim_white q == "") ≡ false)
          × (((out == "") ≡ false)
              × ((r : HttpResponse F) × ((client.send
                        (search_request encode tool.user_agent (trim_white q))
                      ≡ ok r)
                    × IsShown tool.max_results (trim_white q) r out)))
    unfolding run_web_search
    run_web_search-ok tool q out h =
        let query = trim_white q in
        let request = search_request encode tool.user_agent query in
        elim (Bool-cases (query == "")) [
          | inl blank ↦ err-ne-ok (rw blank at h)
          | inr asked ↦ elim (Option-cases (client.cannot_build "GET" request.url)) [
            | inr (e, unbuilt) ↦ err-ne-ok (rw (asked, unbuilt) at h)
            | inl built ↦ elim (Result-cases (client.send request)) [
              | inl (e, failed) ↦ err-ne-ok (rw (asked, built, failed) at h)
              | inr (r, sent) ↦
                  let (text, shown) =
                    read_answer-IsShown tool.max_results query out r
                      (rw (asked, built, sent) at h) in
                  (asked, (text, (r, (sent, shown))))
            ]
          ]
        ]
