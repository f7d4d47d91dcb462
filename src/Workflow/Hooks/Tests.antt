-- ===== src/Workflow/Hooks/Tests.antt =====
-- workflow-webhook.controller.ts: a call that starts a workflow, and one that is lost.
use micro_saas_api.Base.{◌≡◌, refl, Bool, true, false, [], ◌∷◌, none, some}
use micro_saas_api.Text.{codes, same_text, trim, drop_spaces, is_space}
use micro_saas_api.Database.{list_client}
use micro_saas_api.Common.WebhookClaims.{claim}
use micro_saas_api.Billing.Lifecycle.{active, expired}
use micro_saas_api.Billing.Access.{Account, Settings, has_platform_access, resolve_status}
use micro_saas_api.Workflow.Hooks.{
  Hook, Invocation, Tables, duplicate, not_found, started, invocation_key, invoke_for, invoke_found,
  invoke,
}
use micro_saas_api.Workflow.Hooks.Outcome.{HasInvoked, invoke-HasInvoked}

abbrev settings : Settings
settings = record {
  enabled = true;
  website_enabled = false;
  upi_enabled = true;
  upi_configured = true;
  is_super_admin = λ s. false;
}

abbrev account : Account
account = record {
  id = 7;
  email = "a@b.c";
  trial_ends_at = 10;
  status = active;
  plan = none;
  period_end = some 500;
  cancel_at_period_end = false;
  website_status = expired;
  website_plan = none;
  website_period_end = none;
}

abbrev hook : Bool → Hook
hook published = record {
  id = 5;
  user_id = 7;
  webhook_token = some (codes "tok");
  published = published;
  is_active = true;
  has_webhook = true;
  is_archived = false;
}

abbrev tables : Bool → Tables
tables published = record {
  events = [];
  accounts = account ∷ [];
  hooks = hook published ∷ [];
  board = record { executions = []; queue = []; next_id = 1 };
}

abbrev call : Invocation
call = record {
  token = codes "tok";
  idempotency_key = some (codes " ");
  x_idempotency_key = some (codes "key");
  digest = [];
}

starts : (invoke list_client settings 100 call (tables true)).0 ≡ started 1
unfolding invoke invoke_found invoke_for claim invocation_key has_platform_access resolve_status
    same_text trim drop_spaces is_space
starts = refl

-- A call that finds no published workflow takes its key all the same: once the workflow is published,
-- the same call is a duplicate.
not_yet : (invoke list_client settings 100 call (tables false)).0 ≡ not_found
unfolding invoke invoke_found invoke_for claim invocation_key has_platform_access resolve_status
    same_text trim drop_spaces is_space
not_yet = refl

lost :
    (invoke list_client settings 200 call
      (record (invoke list_client settings 100 call (tables false)).1 { hooks = hook true ∷ [] })).0
    ≡ duplicate
unfolding invoke invoke_found invoke_for claim invocation_key has_platform_access resolve_status
    same_text trim drop_spaces is_space
lost = refl

invoke-HasInvoked_example :
    HasInvoked settings 100
      (codes "tok")
      (tables true)
      (invoke list_client settings 100 call (tables true)).0
      (invoke list_client settings 100 call (tables true)).1
invoke-HasInvoked_example = invoke-HasInvoked list_client settings 100 call (tables true)
