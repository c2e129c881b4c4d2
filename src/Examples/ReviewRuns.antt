-- ===== src/Examples/ReviewRuns.antt =====
-- agent/review_workflow.go: a review whose style check fails, and an analyzer that streams.
use sibyl.Prelude.{String, true, false, List, [], ◌∷◌, some, none, ok, err}
use sibyl.Prelude.Int.{pos}
use sibyl.Streaming.{TokenChunk}
use sibyl.Review.{PrReviewInput, ReviewActivities, style_failed, pr_review_workflow, Completions}
use sibyl.Review.Reviewed.{IsReview, pr_review_workflow-IsReview}

abbrev all_but_style : ReviewActivities String
all_but_style = record {
  parse_diff = λ i. ok "p";
  security_audit = λ i. ok i.node_id;
  test_coverage = λ i. ok i.parse_text;
  style_check = λ i. err "slow";
  synthesize_review = λ i. ok "fine";
}

abbrev a_diff : PrReviewInput
a_diff = record { diff = "+1"; streaming_backend = true }

pr_review_workflow-IsReview_example : IsReview all_but_style 3 5 a_diff (err (style_failed "slow"))
unfolding pr_review_workflow
pr_review_workflow-IsReview_example = pr_review_workflow-IsReview all_but_style 3 5 a_diff

abbrev as_said : String → String
as_said e = e

-- The second chunk is empty, and the third comes with an error.
abbrev three_chunks : List (TokenChunk String)
three_chunks =
    record { text = "a"; index = pos 0; final = false; error = none }
    ∷ record { text = ""; index = pos 1; final = false; error = none }
    ∷ record { text = "b"; index = pos 2; final = true; error = some "cut" }
    ∷ []

abbrev streaming_model : Completions String
streaming_model = record {
  complete = some (λ system user. record { value = "whole"; error = none });
  stream = some (λ system user. ok three_chunks);
}
