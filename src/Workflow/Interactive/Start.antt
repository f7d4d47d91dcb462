-- ===== src/Workflow/Interactive/Start.antt =====
-- interactive-message-handler.service.ts and workflow-execution.service.ts: where an answered execution
-- goes on.
use micro_saas_api.Base.{
  lookup, ◌≡◌, inl, inr, refl, ◌∙◌, true, false, List, [], ◌∷◌, Option, none, some, String, str_eq,
  Option-cases, arith, All,
}
use micro_saas_api.Base.{delete, lookup-insert_other, lookup-insert_self, lookup-delete_other}
use micro_saas_api.Workflow.Context.{Value, bool, str, Context}
use micro_saas_api.Workflow.Execution.Walk.{start_at, start_node}
use micro_saas_api.Workflow.Interactive.{
  present, copy_field, copy_present, clear_slot, clear_resource, apply_booking_retry_context,
  set_field, apply_metadata, mark_answered, answered_context,
}

-- The keys that metadata write or remove, but for the one that they name themselves.
abbrev fixed_keys : List String
fixed_keys =
    "service_type" ∷ "resource_id" ∷ "selected_resource_id" ∷ "resource_name" ∷ "slot_starts_at"
    ∷ "selected_slot_starts_at" ∷ "slot_ends_at" ∷ "preferred_date" ∷ "time_period"
    ∷ "catalog_product_id" ∷ "catalog_product_offset" ∷ "catalog_category_id"
    ∷ "catalog_category_name" ∷ "catalog_category_offset" ∷ "catalog_action" ∷ []

abbrev Misses : String → String → Type 0
Misses m k = str_eq k m ≡ false

copy_field-lookup :
    (m : String) (meta : Context) (k to : String) (c : Context)
    → Misses m to
    → lookup m (copy_field meta k to c) ≡ lookup m c
unfolding copy_field
copy_field-lookup m meta k to c h = elim (Option-cases (present (lookup k meta))) [
  | inl n ↦ rw (copy_field, n) refl
  | inr (v, e) ↦ rw (copy_field, e) (lookup-insert_other m to v c h)
]

copy_present-lookup :
    (m : String) (meta : Context) (k : String) (c : Context)
    → Misses m k
    → lookup m (copy_present meta k c) ≡ lookup m c
unfolding copy_present
copy_present-lookup m meta k c h = elim (Option-cases (lookup k meta)) [
  | inl n ↦ rw (copy_present, n) refl
  | inr (v, e) ↦ rw (copy_present, e) (lookup-insert_other m k v c h)
]

clear_slot-lookup :
    (m : String) (c : Context) → All (Misses m) fixed_keys → lookup m (clear_slot c) ≡ lookup m c
unfolding clear_slot
clear_slot-lookup m c (_, (_, (_, (_, (starts, (selected, (ends, _))))))) =
    lookup-delete_other m "selected_slot_starts_at" _ selected
    ∙ lookup-delete_other m "slot_ends_at" _ ends
    ∙ lookup-delete_other m "slot_starts_at" c starts

clear_resource-lookup :
    (m : String) (c : Context)
    → All (Misses m) fixed_keys
    → lookup m (clear_resource c) ≡ lookup m c
unfolding clear_resource
clear_resource-lookup m c (_, (id, (selected, (name, (_, (_, (_, (_, (period, _))))))))) =
    lookup-delete_other m "resource_name" _ name
    ∙ lookup-delete_other m "selected_resource_id" _ selected
    ∙ lookup-delete_other m "resource_id" _ id
    ∙ lookup-delete_other m "time_period" c period

retry-lookup :
    (m : String) (meta c : Context)
    → All (Misses m) fixed_keys
    → lookup m (apply_booking_retry_context meta c) ≡ lookup m c
unfolding apply_booking_retry_context
retry-lookup m meta c h =
    let date = clear_slot-lookup m (delete "time_period" c) h in
    let period = lookup-delete_other m "time_period" c h.1.1.1.1.1.1.1.1.0 in
    let resource = clear_slot-lookup m (clear_resource c) h in
    let cleared = clear_resource-lookup m c h in
    let slot = clear_slot-lookup m c h in ground (arith, date, period, resource, cleared, slot)

-- The key that metadata name is not `m`.
abbrev pub Spares : (Value → String) → Context → String → Type 0
Spares text_of meta m =
    (f : Value) → present (lookup "context_field" meta) ≡ some f → str_eq (text_of f) m ≡ false

set_field-lookup :
    (text_of : Value → String) (m : String) (f v : Option Value) (c : Context)
    → ((g : Value) → f ≡ some g → str_eq (text_of g) m ≡ false)
    → lookup m (set_field text_of f v c) ≡ lookup m c
unfolding set_field
set_field-lookup text_of m none v c h = refl
set_field-lookup text_of m (some f) none c h = refl
set_field-lookup text_of m (some f) (some v) c h = lookup-insert_other m (text_of f) v c (h f refl)

apply_metadata-lookup :
    (text_of : Value → String) (meta : Context) (m : String) (c : Context)
    → All (Misses m) fixed_keys
    → Spares text_of meta m
    → lookup m (apply_metadata text_of meta c) ≡ lookup m c
unfolding apply_metadata
apply_metadata-lookup text_of meta m c h spares =
    let (
      service,
      (
        id,
        (
          selected,
          (
            name,
            (
              starts,
              (
                slot,
                (
                  ends,
                  (
                    date,
                    (
                      period,
                      (
                        product,
                        (offset, (category, (category_name, (category_offset, (action, _))))),
                      ),
                    ),
                  ),
                ),
              ),
            ),
          ),
        ),
      ),
    ) =
      h in
    copy_field-lookup m meta "catalog_action" "catalog_action" _ action
    ∙ copy_field-lookup m meta "catalog_category_offset" "catalog_category_offset" _ category_offset
    ∙ copy_field-lookup m meta "catalog_category_name" "catalog_category_name" _ category_name
    ∙ copy_present-lookup m meta "catalog_category_id" _ category
    ∙ copy_field-lookup m meta "catalog_product_offset" "catalog_product_offset" _ offset
    ∙ copy_field-lookup m meta "catalog_product_id" "catalog_product_id" _ product
    ∙ copy_field-lookup m meta "time_period" "time_period" _ period
    ∙ copy_field-lookup m meta "preferred_date" "preferred_date" _ date
    ∙ copy_field-lookup m meta "ends_at" "slot_ends_at" _ ends
    ∙ copy_field-lookup m meta "starts_at" "selected_slot_starts_at" _ slot
    ∙ copy_field-lookup m meta "starts_at" "slot_starts_at" _ starts
    ∙ copy_field-lookup m meta "resource_name" "resource_name" _ name
    ∙ copy_field-lookup m meta "resource_id" "selected_resource_id" _ selected
    ∙ copy_field-lookup m meta "resource_id" "resource_id" _ id
    ∙ copy_field-lookup m meta "service_type" "service_type" _ service
    ∙ set_field-lookup text_of m _ _ _ spares
    ∙ retry-lookup m meta c h

abbrev pub resume_at : String
resume_at = "__resume_at_node_id"

abbrev pub from_message : String
from_message = "__resumed_from_interactive_message"

mark_answered-resume_at :
    (selected next : String) (c : Context)
    → lookup resume_at (mark_answered selected next c) ≡ some (str next)
unfolding mark_answered
mark_answered-resume_at selected next c =
    lookup-delete_other resume_at "__paused_at_node_id" _ refl ∙ lookup-insert_self resume_at _ _

mark_answered-from_message :
    (selected next : String) (c : Context)
    → lookup from_message (mark_answered selected next c) ≡ some (bool true)
unfolding mark_answered
mark_answered-from_message selected next c =
    lookup-delete_other from_message "__paused_at_node_id" _ refl
    ∙ lookup-insert_other from_message resume_at _ _ refl
    ∙ lookup-insert_other from_message "__resuming" _ _ refl
    ∙ lookup-insert_self from_message _ _

missed_resume_at : All (Misses resume_at) fixed_keys
missed_resume_at = (
  refl,
  (
    refl,
    (
      refl,
      (
        refl,
        (refl, (refl, (refl, (refl, (refl, (refl, (refl, (refl, (refl, (refl, (refl, tt))))))))))),
      ),
    ),
  ),
)

missed_from_message : All (Misses from_message) fixed_keys
missed_from_message = (
  refl,
  (
    refl,
    (
      refl,
      (
        refl,
        (refl, (refl, (refl, (refl, (refl, (refl, (refl, (refl, (refl, (refl, (refl, tt))))))))))),
      ),
    ),
  ),
)

-- The metadata leave the two marks alone that decide where an execution goes on.
abbrev pub SparesMarks : (Value → String) → Option Context → Type 0
SparesMarks text_of none = Unit
SparesMarks text_of (some meta) = Spares text_of meta resume_at × Spares text_of meta from_message

-- An execution whose message has been answered goes on at the node of the option, whatever its
-- context was and however far it had come, when the metadata of the option do not name a mark as the
-- field to write.
pub answered_context-start_node :
    (text_of : Value → String) (selected next : String) (meta : Option Context) (c : Context)
    (trigger : String)
    → SparesMarks text_of meta
    → start_node (answered_context text_of selected next meta c) trigger ≡ next
unfolding start_node start_at answered_context
answered_context-start_node text_of selected next none c trigger spares =
    rw (mark_answered-resume_at selected next c, mark_answered-from_message selected next c) refl
answered_context-start_node text_of selected next (some meta) c trigger (at, message) =
    let marked = mark_answered selected next c in
    rw
      (
        apply_metadata-lookup text_of meta resume_at marked missed_resume_at at,
        apply_metadata-lookup text_of meta from_message marked missed_from_message message,
        mark_answered-resume_at selected next c,
        mark_answered-from_message selected next c,
      )
      refl
