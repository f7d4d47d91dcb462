-- ===== src/Workflow/Selection/Tests.antt =====
-- workflow-selection.util.ts: three workflows.
use micro_saas_api.Base.{ℕ, ◌≡◌, refl, List, [], ◌∷◌, Option, none, some}
use micro_saas_api.Text.{
  Text, codes, same_text, trim, to_lower, includes, starts_with, drop_spaces, is_space,
}
use micro_saas_api.Workflow.Selection.{
  Keywords, listed, line, Workflow, normalize_trigger_channel_filter, trigger_channel_matches,
  split_from, keywords_of, keyword_hits, count_hits, trigger_hit_count, select_workflow_for_message,
}
use micro_saas_api.Workflow.Selection.Best.{IsSelected, select_workflow_for_message-IsSelected}

abbrev workflow : ℕ → Option Text → ℕ → Keywords → Workflow
workflow id category at keywords = record {
  id = id;
  business_category = category;
  updated_at = some at;
  nodes =
      record {
        node_type = codes "trigger";
        trigger = record {
          channel = some (codes "WhatsApp");
          keywords = keywords;
          match_mode = none;
        };
      }
      ∷ [];
}

abbrev workflows : List Workflow
workflows =
    workflow 1 none 50 (line [])
    ∷ workflow 2 none 10 (line (codes "price, menu"))
    ∷ workflow 3 (some (codes "salon")) 20 (listed (codes "price" ∷ []))
    ∷ []

-- Two keywords go before one, and both before a workflow for any message.
most_hits :
    select_workflow_for_message workflows (codes "Menu and PRICE?") []
    ≡ some (workflow 2 none 10 (line (codes "price, menu")))
unfolding select_workflow_for_message trigger_hit_count trigger_channel_matches
    normalize_trigger_channel_filter keywords_of split_from keyword_hits count_hits same_text
    to_lower trim includes starts_with drop_spaces is_space
most_hits = refl

catch_all :
    select_workflow_for_message workflows (codes "hello") (codes "whatsapp")
    ≡ some (workflow 1 none 50 (line []))
unfolding select_workflow_for_message trigger_hit_count trigger_channel_matches
    normalize_trigger_channel_filter keywords_of split_from keyword_hits count_hits same_text
    to_lower trim includes starts_with drop_spaces is_space
catch_all = refl

select_workflow_for_message-IsSelected_example :
    IsSelected workflows
      (codes "Menu and PRICE?")
      []
      (select_workflow_for_message workflows (codes "Menu and PRICE?") [])
select_workflow_for_message-IsSelected_example =
    select_workflow_for_message-IsSelected workflows (codes "Menu and PRICE?") []
