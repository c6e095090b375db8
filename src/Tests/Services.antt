-- ===== src/Tests/Services.antt =====
-- The webhooks, the migrations runner, the relations and the purge on sample data.
use davepi.Base.{
  Bool-cases, List, Option, String, [], arith, every, false, inl, inr, is_empty, none, not, refl,
  some, subst, true, ◌==◌, ◌∷◌, ◌≡◌,
}
use davepi.Js.{Object, undefined, str, obj, empty, prop, get, put, to_text, has_own}
use davepi.Schema.{Schema}
use davepi.Program.{Ensures, Returns, Within}
use davepi.Webhooks
use davepi.Webhooks.Retries.{is_post, deliver-Ends}
use davepi.Runner
use davepi.Runner.Applied.{RanPending, Runs, migrate-Runs}
use davepi.Relations
use davepi.Relations.Included.{IsPlain, FindsOwn, apply_includes-FindsOwn}
use davepi.Relations.Named.{parse_includes-known}
use davepi.Retention
use davepi.Retention.Expired.{Purges, purge-Purges}
use davepi.Tests.{ann, invoices, stored}

abbrev sign : String → String → String
sign secret body = secret

abbrev stringify : Object → String
stringify o = "{}"

abbrev created : Webhooks.Event
created = record {
  type = "invoice.created";
  version = str "v1";
  user_id = str "u1";
  record_id = str "i1";
  shown = obj stored;
  filter = undefined;
  num_affected = undefined;
}

deliver-Ends_example :
    Returns
      (λ _. Unit)
      (Webhooks.deliver sign stringify Webhooks.default_backoff_ms Webhooks.default_max_failures
        (Webhooks.all_attempts sign stringify Webhooks.default_backoff_ms
          Webhooks.default_max_failures)
        (str "w1")
        created
        0)
    × Within is_post
        (Webhooks.deliver sign stringify Webhooks.default_backoff_ms Webhooks.default_max_failures
          (Webhooks.all_attempts sign stringify Webhooks.default_backoff_ms
            Webhooks.default_max_failures)
          (str "w1")
          created
          0)
        6
deliver-Ends_example =
    deliver-Ends sign stringify Webhooks.default_backoff_ms Webhooks.default_max_failures (str "w1")
      created

patterns_match :
    (Webhooks.event_matches ("task.*" ∷ "invoice.*" ∷ []) "invoice.created" ≡ true)
    × (Webhooks.event_matches ("invoice.updated" ∷ "inv.*" ∷ []) "invoice.created" ≡ false)
unfolding Webhooks.event_matches Webhooks.pattern_matches Webhooks.wildcard_prefix
    Webhooks.starts_with
patterns_match = (refl, refl)

migrate-Runs_example :
    Ensures (Runs false) (RanPending false) [] (Runner.migrate_up false)
    × Ensures (Runs false) (λ _ r. Unit) [] (Runner.migrate_down false)
migrate-Runs_example = migrate-Runs false

pending_in_order :
    Runner.pending ("2024-a" ∷ []) (
      Runner.list_migration_files
        (some ("2025-b.js" ∷ "notes.md" ∷ "2024-a.js" ∷ "2024-c.js" ∷ [])))
    ≡ "2024-c.js" ∷ "2025-b.js" ∷ []
unfolding Runner.pending Runner.list_migration_files Runner.sort Runner.is_js
    Runner.migration_name_from_file
pending_in_order = refl

abbrev schema_of : String → Option Schema
schema_of path = some invoices

-- A customer has many paid invoices.
abbrev declared_relations : List (String × Relations.Declared)
declared_relations =
    (
      "invoices",
      record {
        belongs_to_target = none;
        has_many_target = some "invoice";
        has_one_target = none;
        local_key = none;
        fk = none;
        foreign_key = some "customerId";
        where_filter = some (prop "status" (str "paid") empty);
      },
    )
    ∷ []

abbrev paid_invoices : Relations.Relation
paid_invoices = record {
  kind = Relations.has_many;
  target = "invoice";
  local_key = "";
  foreign_key = some "customerId";
  where_filter = some (prop "status" (str "paid") empty);
}

abbrev relations : List (String × Relations.Relation)
relations = ("invoices", paid_invoices) ∷ []

normalized : Relations.normalize_relations declared_relations [] ≡ relations
unfolding Relations.normalize_relations Relations.explicit_relations Relations.relation_of
    Relations.add_references
normalized = refl

abbrev customers : List Object
customers = prop "_id" (str "c1") empty ∷ prop "_id" (str "c2") empty ∷ []

abbrev their_invoices : List Object
their_invoices = put "customerId" (str "c2") stored ∷ put "customerId" (str "c1") stored ∷ []

abbrev parent_of : Object → String
parent_of m = to_text (get "customerId" m)

relations-IsPlain :
    (name : String) (r : Relations.Relation)
    → Relations.find_relation relations name ≡ some r
    → IsPlain r.where_filter
unfolding Relations.find_relation has_own
relations-IsPlain name r e = elim (Bool-cases ("invoices" == name)) [
  | inl h ↦
      let same : paid_invoices ≡ r = ground arith in
      subst (λ (q : Relations.Relation). IsPlain q.where_filter) same ((refl, tt), refl, refl)
  | inr h ↦ absurd (ground arith)
]

apply_includes-FindsOwn_example :
    Ensures
      (FindsOwn schema_of (some ann))
      (λ _ _. Unit)
      []
      (Relations.apply_includes schema_of (some ann) customers relations ("invoices" ∷ []))
apply_includes-FindsOwn_example =
    apply_includes-FindsOwn schema_of (some ann) relations relations-IsPlain ("invoices" ∷ [])
      customers []

parse_includes-known_example :
    ((names : List String)
      → Relations.parse_includes (str "invoices, tasks") relations ≡ Relations.includes_of names
      → every (Relations.known relations) names ≡ true)
    × ((names : List String)
        → Relations.parse_includes (str "invoices, tasks") relations
          ≡ Relations.rejected (Relations.unknown_relations names)
        → (every (λ n. not (Relations.known relations n)) names ≡ true) × (is_empty names ≡ false))
parse_includes-known_example = parse_includes-known (str "invoices, tasks") relations

abbrev resources : List Retention.Resource
resources =
    record {
      path = "invoice";
      soft_delete = Retention.enabled none;
      collection = "invoices";
      has_model = true;
      file_fields = "scan" ∷ [];
    }
    ∷ []

purge-Purges_example :
    Ensures
      (Purges 9000000000 (some 30) resources)
      (λ _ _. Unit)
      []
      (Retention.purge_expired_soft_deletes 9000000000 (some 30) resources)
purge-Purges_example = purge-Purges 9000000000 (some 30) resources
