-- ===== src/Tests/Wrappers.antt =====
-- The wrappers of scopeResolver.js on sample requests.
use davepi.Base.{List, Option, [], false, none, refl, some, ◌∷◌, ◌≡◌}
use davepi.Js.{
  nullish, decimal, has_own, Value, undefined, null, bool, num, str, arr, obj, Items, nil, cons,
  Object, empty, prop, get, truthy, to_text, put,
}
use davepi.Schema.{User}
use davepi.Acl.{
  can_read_field, update, user_roles, bypass_user_scope_for_list, grants, has_overlap,
  get_role_scope_filter, join_filters, matched_filters, role_filter, project_by_acl,
  drop_unreadable, refuses,
}
use davepi.Js
use davepi.Fragment.{same_id, matches_role_scope, matches_fragment, matches_operator}
use davepi.Scopes.{has_scope}
use davepi.ScopeResolver.{delete, require_scope, Outcome, ok, Request, write, require_user}
use davepi.ScopeResolver.Traces.{Traces}
use davepi.ScopeResolver.Results.{is_single, project_result, project_items, project_value}
use davepi.ScopeResolver.Filter.{wrap_filter}
use davepi.ScopeResolver.Find.{with_owner, is_visible, wrap_find_by_ids, wrap_computed_field}
use davepi.ScopeResolver.Create.{wrap_create_one, wrap_create_many}
use davepi.ScopeResolver.ById.{wrap_by_id_mutation, wrap_state_transition}
use davepi.ScopeResolver.Owner.{CreatesOwned, wrap_create_one-CreatesOwned}
use davepi.ScopeResolver.Updates.{IsOwnersUpdate, wrap_by_id_mutation-IsOwnersUpdate}
use davepi.ScopeResolver.Guards.{IsRefused, writes-IsRefused}
use davepi.ScopeResolver.Seen.{ShowsAll, wrap_find_by_ids-ShowsAll}
use davepi.Tests.{
  margin, ann, reader, invoices, invoice_fields, stored, forged, no_args, asks, find_one, resolver,
  find_many, runner,
}

abbrev changing : Request
changing = asks ann (record no_args { payload = obj forged })

abbrev creating_many : Request
creating_many = asks ann (record no_args { payloads = some (forged ∷ forged ∷ []) })

abbrev searching : Request
searching =
    asks ann
      (record no_args { filter = some (prop "userId" (str "u9") empty); search = str "late" })

wrap_create_one-CreatesOwned_example :
    Traces (CreatesOwned (some ann)) (wrap_create_one invoices resolver changing)
wrap_create_one-CreatesOwned_example = wrap_create_one-CreatesOwned invoices resolver changing

wrap_by_id_mutation-IsOwnersUpdate_example :
    Traces
      (IsOwnersUpdate find_one invoices write changing)
      (wrap_by_id_mutation find_one invoices resolver (some update) write changing)
wrap_by_id_mutation-IsOwnersUpdate_example =
    wrap_by_id_mutation-IsOwnersUpdate find_one invoices resolver (some update) write changing

abbrev reading : Request
reading = asks reader (record no_args { payload = obj forged })

writes-IsRefused_example :
    IsRefused (wrap_create_one invoices resolver reading)
    × IsRefused (wrap_create_many invoices resolver reading)
    × IsRefused (wrap_by_id_mutation find_one invoices resolver (some update) write reading)
    × IsRefused
        (wrap_state_transition find_one invoices runner write (some reader) (str "i1") (str "sent"))
    × IsRefused (wrap_filter invoices resolver (some update) write reading)
    × IsRefused (wrap_filter invoices resolver (some update) delete reading)
unfolding has_scope truthy
writes-IsRefused_example =
    writes-IsRefused invoices resolver find_one runner reading (some update) write (str "sent") refl

abbrev anonymous : Request
anonymous = record { user = none; args = no_args }

abbrev totals : Option User → Value → Outcome Value
totals user params = ok (num 12)

-- A computed field that a user may not read is null, and so is one whose computation fails.
hidden_computed :
    wrap_computed_field margin (λ source user. ok (num 3)) (obj stored) (some ann) ≡ null
unfolding wrap_computed_field can_read_field has_overlap user_roles
hidden_computed = refl

abbrev looking : Request
looking = asks ann no_args

abbrev shown : Object
shown = prop "_id" (str "i1") (
    prop "userId" (str "u1")
      (prop "total" (num 7) (prop "archived" (bool false) (prop "status" (str "draft") empty))))

wrap_find_by_ids-ShowsAll_example :
    (rs : List Object) × (vs : Items) × (find_many (with_owner no_args) ≡ ok rs)
    × (arr (cons (obj shown) nil) ≡ arr vs)
    × ShowsAll invoices invoice_fields (some ann) refl rs vs
unfolding wrap_find_by_ids require_user truthy require_scope has_scope is_visible
    bypass_user_scope_for_list grants has_overlap user_roles same_id to_text get matches_role_scope
    get_role_scope_filter join_filters matched_filters role_filter matches_fragment project_result
    project_items project_value is_single project_by_acl drop_unreadable refuses davepi.Js.delete
    has_own put nullish matches_operator decimal
wrap_find_by_ids-ShowsAll_example =
    wrap_find_by_ids-ShowsAll invoices invoice_fields find_many looking (arr (cons (obj shown) nil))
      refl refl
