-- ===== src/Workflow/Selection.antt =====
-- workflow-selection.util.ts, workflow-trigger-channel.ts and incoming-workflow-matcher.ts: the workflow
-- that a message starts. Dates are milliseconds.
pub mod Best
pub mod Tests
use micro_saas_api.Base.{
  ℕ, zero, suc, ◌+◌, Bool, true, false, ◌&&◌, ◌||◌, List, [], ◌∷◌, ◌++◌, Option, none, some,
  if◌then◌else◌, length, filter, find, any, all, map, ltb, ◌==◌,
}
use micro_saas_api.Text.{Text, codes, same_text, trim, to_lower, includes}

-- The keywords of a trigger: a list, or a line that commas divide.
pub data Keywords : Type 0 where
  listed : List Text → Keywords
  line : Text → Keywords

-- The data of a trigger node that are read.
pub record Trigger : Type 0 where
  pub channel : Option Text
  pub keywords : Keywords
  pub match_mode : Option Text

pub record Node : Type 0 where
  pub node_type : Text
  pub trigger : Trigger

pub record Workflow : Type 0 where
  pub id : ℕ
  pub business_category : Option Text
  pub updated_at : Option ℕ
  pub nodes : List Node

-- WorkflowMatchCandidate
pub record Candidate : Type 0 where
  pub workflow : Workflow
  pub hits : ℕ

abbrev no_trigger : Trigger
no_trigger = record { channel = none; keywords = line []; match_mode = none }

abbrev text_or : Text → Option Text → Text
text_or default none = default
text_or default (some s) = s

-- `trigger?.data ?? {}`
abbrev trigger_of : Workflow → Trigger
trigger_of w = elim (find (λ (n : Node). same_text n.node_type (codes "trigger")) w.nodes) [
  | none ↦ no_trigger
  | some n ↦ n.trigger
]

-- TriggerChannelFilter
pub data ChannelFilter : Type 0 where
  both : ChannelFilter
  only : Text → ChannelFilter

-- normalizeTriggerChannelFilter
unfoldable pub normalize_trigger_channel_filter : Option Text → ChannelFilter
normalize_trigger_channel_filter raw =
    let v = to_lower (text_or (codes "both") raw) in
    if same_text v (codes "whatsapp") || same_text v (codes "instagram") then only v else both

abbrev or_whatsapp : Text → Text
or_whatsapp [] = codes "whatsapp"
or_whatsapp (c ∷ s) = c ∷ s

abbrev filter_matches : ChannelFilter → Text → Bool
filter_matches both channel = true
filter_matches (only v) channel = same_text v (or_whatsapp channel)

-- triggerChannelMatches
unfoldable pub trigger_channel_matches : Trigger → Text → Bool
trigger_channel_matches t channel =
    filter_matches (normalize_trigger_channel_filter t.channel) channel

abbrev is_comma : ℕ → Bool
is_comma c = c == b','

-- `split(',')`, with the text before the next comma read so far.
unfoldable pub split_from : Text → Text → List Text
split_from read [] = read ∷ []
split_from read (c ∷ s) =
    let ended = split_from [] s in
    let longer = split_from (read ++ c ∷ []) s in if is_comma c then read ∷ ended else longer

abbrev raw_keywords : Keywords → List Text
raw_keywords (listed ks) = ks
raw_keywords (line s) = split_from [] s

abbrev is_filled : Text → Bool
is_filled [] = false
is_filled (c ∷ s) = true

unfoldable pub keywords_of : Keywords → List Text
keywords_of raw = filter is_filled (map trim (raw_keywords raw))

unfoldable pub keyword_hits : Text → Text → Text → Bool
keyword_hits mode haystack k =
    if same_text mode (codes "exact")
    then same_text haystack (to_lower k)
    else includes haystack (to_lower k)

abbrev counted : ℕ → Option ℕ
counted zero = none
counted (suc n) = some (suc n)

-- The count when there are keywords.
unfoldable pub count_hits : Text → Text → List Text → Option ℕ
count_hits mode haystack keywords =
    let hits = length (filter (keyword_hits mode haystack) keywords) in
    if same_text mode (codes "all")
    then if hits == length keywords then some hits else none
    else counted hits

abbrev hits_of : Text → Text → List Text → Option ℕ
hits_of mode haystack [] = some 0
hits_of mode haystack (k ∷ ks) = count_hits mode haystack (k ∷ ks)

-- triggerHitCount
unfoldable pub trigger_hit_count : Workflow → Text → Text → Option ℕ
trigger_hit_count w text channel =
    let t = trigger_of w in
    if trigger_channel_matches t channel
    then hits_of (text_or (codes "any") t.match_mode) (to_lower text) (keywords_of t.keywords)
    else none

-- updatedAtMs
abbrev pub updated_at_ms : Workflow → ℕ
updated_at_ms w = elim w.updated_at [ none ↦ 0 | some at ↦ at ]

-- The comparison of the sort is negative: `a` comes before `b`.
abbrev pub comes_before : Candidate → Candidate → Bool
comes_before a b =
    ltb b.hits a.hits
    || b.hits == a.hits && ltb (updated_at_ms b.workflow) (updated_at_ms a.workflow)

-- JavaScript's sort, which is stable.
abbrev pub insert_candidate : Candidate → List Candidate → List Candidate
insert_candidate c [] = c ∷ []
insert_candidate c (d ∷ ds) =
    let rest = insert_candidate c ds in if comes_before d c then d ∷ rest else c ∷ d ∷ ds

abbrev pub sort_candidates : List Candidate → List Candidate
sort_candidates [] = []
sort_candidates (c ∷ cs) = insert_candidate c (sort_candidates cs)

abbrev pub add_candidate : Workflow → Option ℕ → List Candidate → List Candidate
add_candidate w none cs = cs
add_candidate w (some hits) cs = record { workflow = w; hits = hits } ∷ cs

-- `matching`
abbrev pub candidates : Text → Text → List Workflow → List Candidate
candidates text channel [] = []
candidates text channel (w ∷ ws) =
    add_candidate w (trigger_hit_count w text channel) (candidates text channel ws)

abbrev pub has_keyword : Candidate → Bool
has_keyword c = ltb 0 c.hits

abbrev pub pool_of : List Candidate → List Candidate
pool_of cs = elim (filter has_keyword cs) [ [] ↦ cs | k ∷ ks ↦ k ∷ ks ]

abbrev pub first_workflow : List Candidate → Option Workflow
first_workflow [] = none
first_workflow (c ∷ cs) = some c.workflow

-- selectWorkflowForMessage
unfoldable pub select_workflow_for_message : List Workflow → Text → Text → Option Workflow
select_workflow_for_message ws text channel =
    first_workflow (sort_candidates (pool_of (candidates text channel ws)))

abbrev pub is_tagged : Text → Workflow → Bool
is_tagged category w = elim w.business_category [ none ↦ false | some c ↦ same_text c category ]

abbrev picked_or : Option Workflow → Option Workflow → Option Workflow
picked_or none other = other
picked_or (some w) other = some w

-- selectWorkflowForBusiness; the empty text is no category.
unfoldable pub select_workflow_for_business :
    List Workflow → Text → Text → (business_category : Option Text) → Option Workflow
select_workflow_for_business ws text channel (some (c ∷ category)) =
    picked_or (select_workflow_for_message (filter (is_tagged (c ∷ category)) ws) text channel)
      (select_workflow_for_message ws text channel)
select_workflow_for_business ws text channel _ = select_workflow_for_message ws text channel

-- `USE_CASE_TRIGGER_KEYWORDS.appointment_booking`
abbrev pub appointment_booking : List Text
appointment_booking =
    codes "book"
    ∷ codes "appointment"
    ∷ codes "schedule"
    ∷ codes "slot"
    ∷ codes "meeting"
    ∷ codes "visit"
    ∷ codes "barber"
    ∷ codes "stylist"
    ∷ codes "haircut"
    ∷ codes "turf"
    ∷ codes "ground"
    ∷ codes "cricket"
    ∷ codes "football"
    ∷ []

-- messageMatchesBookingIntent
unfoldable pub message_matches_booking_intent : Text → Bool
message_matches_booking_intent text =
    any (λ k. includes (to_lower text) (to_lower k)) appointment_booking
