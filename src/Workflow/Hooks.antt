-- ===== src/Workflow/Hooks.antt =====
-- workflow-webhook.controller.ts: an outside service starts a workflow by the token of its webhook. The
-- payload is left out.
pub mod Outcome
pub mod Tests
use micro_saas_api.Base.{
  ℕ, ◌+◌, Bool, false, not, ◌&&◌, List, [], ◌∷◌, ◌++◌, Option, none, some, if◌then◌else◌, ◌==◌,
}
use micro_saas_api.Text.{Text, codes, same_text, trim, take}
use micro_saas_api.Database.{Client}
use micro_saas_api.Common.WebhookClaims.{Event, Claim, claim, default_ttl_ms}
use micro_saas_api.Billing.Access.{Account, Settings, has_platform_access}
use micro_saas_api.Workflow.Schedule.{Board, enqueue_execution}

-- The columns of a workflow that the webhook reads.
pub record Hook : Type 0 where
  pub id : ℕ
  pub user_id : ℕ
  pub webhook_token : Option Text
  pub published : Bool
  pub is_active : Bool
  pub has_webhook : Bool
  pub is_archived : Bool

-- A call: the token of the path, the two headers, and the SHA-256 that Node makes of token and body.
pub record Invocation : Type 0 where
  pub token : Text
  pub idempotency_key : Option Text
  pub x_idempotency_key : Option Text
  pub digest : Text

pub record Tables : Type 0 where
  pub events : List Event
  pub accounts : List Account
  pub hooks : List Hook
  pub board : Board

pub data Response : Type 0 where
  duplicate not_found user_not_found inactive : Response
  started : (execution_id : ℕ) → Response

abbrev pub holds_token : Text → Option Text → Bool
holds_token token none = false
holds_token token (some s) = same_text s token

-- `where` of the workflow.
abbrev pub is_hook : Text → Hook → Bool
is_hook token w =
    holds_token token w.webhook_token
    && w.published
    && w.is_active
    && w.has_webhook
    && not w.is_archived

abbrev trimmed : Option Text → Text
trimmed none = []
trimmed (some s) = trim s

abbrev or_text : Text → Text → Text
or_text [] b = b
or_text (c ∷ s) b = c ∷ s

unfoldable pub invocation_key : Invocation → Text
invocation_key r =
    or_text (trimmed r.idempotency_key) (or_text (trimmed r.x_idempotency_key) (take 32 r.digest))

abbrev pub claim_invocation : ℕ → Invocation → Tables → Claim
claim_invocation now r t =
    claim now default_ttl_ms (codes "workflow") (r.token ++ codes ":" ++ invocation_key r) t.events

abbrev pub start : ℕ → Hook → Board → Board
start now w = enqueue_execution now w.user_id w.id

module _ (db : Client) (s : Settings) where
  -- The owner of the workflow, who may have access.
  unfoldable pub invoke_for : ℕ → Hook → Option Account → Tables → Response × Tables
  invoke_for now w none t = (user_not_found, t)
  invoke_for now w (some u) t =
      if has_platform_access s u now
      then (started t.board.next_id, record t { board = start now w t.board })
      else (inactive, t)

  unfoldable pub invoke_found : ℕ → Option Hook → Tables → Response × Tables
  invoke_found now none t = (not_found, t)
  invoke_found now (some w) t =
      invoke_for now w (db.find_first (λ (u : Account). u.id == w.user_id) t.accounts) t

  -- invoke
  unfoldable pub invoke : ℕ → Invocation → Tables → Response × Tables
  invoke now r t =
      let claimed = claim_invocation now r t in
      let found =
        invoke_found now (db.find_first (is_hook r.token) t.hooks)
          (record t { events = claimed.events }) in
      if claimed.is_new then found else (duplicate, record t { events = claimed.events })
