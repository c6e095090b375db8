-- ===== src/Tests/Access.antt =====
-- acl.js and the filters on sample invoices.
use davepi.Base.{false, refl, some, true, ◌&&◌, ◌≡◌}
use davepi.Js.{to_text, bool, num, Object, empty, prop, get, has_own, put, delete}
use davepi.Js.Laws.{IsDistinct}
use davepi.Acl.{
  update, user_roles, filter_writable, project_by_acl, has_overlap, apply_role_scope_filter,
  keep_writable, skipped, field_skipped, field_by_name, refuses, drop_unreadable, merge_filter,
}
use davepi.Acl.Read.{IsProjection, project_by_acl-IsProjection}
use davepi.Acl.Write.{IsWritablePart, filter_writable-IsWritablePart}
use davepi.Fragment.{same_id, matches_entries}
use davepi.Fragment.Merge.{apply_role_scope_filter-conjunction}
use davepi.Tests.{ann, invoices, invoice_fields, stored, forged}

-- The margin of an invoice is hidden from a user.
hidden_margin : project_by_acl (some stored) invoices (some ann) ≡ some (delete "margin" stored)
unfolding project_by_acl drop_unreadable refuses has_overlap user_roles
hidden_margin = refl

-- An update by a user keeps neither the owner nor the margin.
kept_total : filter_writable forged invoices (some ann) update ≡ prop "total" (num 5) empty
unfolding filter_writable keep_writable skipped field_skipped field_by_name refuses has_overlap
    user_roles put
kept_total = refl

-- A user's own filter cannot reach the archived invoices.
archived_out :
    matches_entries stored (
      apply_role_scope_filter
        (prop "archived" (bool true) empty)
        (some (prop "archived" (bool false) empty)))
    ≡ false
unfolding matches_entries apply_role_scope_filter merge_filter get same_id to_text
archived_out = refl

forged-IsDistinct : IsDistinct forged
unfolding has_own
forged-IsDistinct = (refl, (refl, (refl, tt)))

project_by_acl-IsProjection_example :
    (p : Object) × (project_by_acl (some stored) invoices (some ann) ≡ some p)
    × IsProjection invoice_fields (user_roles (some ann)) stored p
project_by_acl-IsProjection_example =
    project_by_acl-IsProjection invoices invoice_fields (some ann) stored refl

filter_writable-IsWritablePart_example :
    IsWritablePart invoice_fields
      (user_roles (some ann))
      update
      forged
      (filter_writable forged invoices (some ann) update)
filter_writable-IsWritablePart_example =
    filter_writable-IsWritablePart invoices invoice_fields (some ann) update forged refl
      forged-IsDistinct

apply_role_scope_filter-conjunction_example :
    matches_entries stored (
      apply_role_scope_filter
        (prop "total" (num 7) empty)
        (some (prop "archived" (bool false) empty)))
    ≡ (matches_entries stored (prop "total" (num 7) empty)
        && matches_entries stored (prop "archived" (bool false) empty))
apply_role_scope_filter-conjunction_example =
    apply_role_scope_filter-conjunction stored (prop "total" (num 7) empty)
      (prop "archived" (bool false) empty)
