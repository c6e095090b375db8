-- ===== src/Tests/Requests.antt =====
-- Sample requests to the authentication, and retries under one key.
use davepi.Base.{
  Option, String, arith, eq_iff, false, if◌then◌else◌, none, refl, some, true, ◌==◌, ◌≡◌, ◌≢◌, ◌⊎◌,
}
use davepi.Js.{str, truthy}
use davepi.Schema.{User}
use davepi.Auth.{
  Request, pass, Client, Lookup, found, missing, client_user, client_auth, client_id_of, is_bearer,
  token_of, verify_token, then_do, is_write_method,
}
use davepi.Auth.Words.{remove_bearer, has_bearer, trim, begins}
use davepi.Auth.Laws.{IsBearer, IsClient, authenticate_sound}
use davepi.Collection.Table.{Rows, table}
use davepi.Idempotency.{
  Response, Row, claimed, completed, new_row, undisturbed, claim_idempotency, ran, replayed,
  refused, idempotency_middleware,
}
use davepi.Idempotency.Claims.{WasFree, IsGranted, claim-IsGranted}
use davepi.Idempotency.Requests.{retry_replays, retry_conflicts}
use davepi.Tests.{ann, reader}

abbrev active_client : Client
active_client = record { id = "c1"; role = "partner"; status = "active" }

abbrev clients : String → Lookup Client
clients id = if id == "c1" then found active_client else missing

abbrev api_keys : String → Lookup User
api_keys token = if token == "dpk_1" then found reader else missing

abbrev tokens : String → Option User
tokens token = if token == "jwt1" then some ann else none

abbrev get_invoices : Request
get_invoices = record {
  method = "GET";
  base_url = "";
  path = "/api/v1/invoice";
  authorization = none;
  client_id = none;
  user = none;
}

abbrev by_token : Request
by_token = record get_invoices { authorization = some "Bearer jwt1" }

abbrev as_ann : Request
as_ann = record by_token { user = some ann }

token_passes :
    then_do (client_auth clients by_token) (verify_token api_keys tokens true) ≡ pass as_ann
unfolding client_auth has_bearer verify_token truthy token_of remove_bearer begins
token_passes = refl

authenticate_sound_example :
    (user : User) × (some ann ≡ some user)
    × (IsBearer clients api_keys tokens by_token user
        ⊎ ((is_bearer (some "Bearer jwt1") ≡ false)
            × IsClient clients api_keys tokens by_token user))
authenticate_sound_example =
    authenticate_sound clients api_keys tokens by_token as_ann refl token_passes

-- A client's id lets a request read.
client_passes :
    then_do
      (client_auth clients (record get_invoices { client_id = some " c1 " }))
      (verify_token api_keys tokens true)
    ≡ pass
        (record get_invoices { client_id = some " c1 "; user = some (client_user active_client) })
unfolding client_auth client_id_of trim is_write_method verify_token truthy
client_passes = refl

-- A handler that creates an invoice, and one that fails.
abbrev created_answer : Response
created_answer = record { status = 201; body = str "i1" }

abbrev failed_answer : Response
failed_answer = record { status = 500; body = str "down" }

abbrev create_invoice : Rows Row → Response × Rows Row
create_invoice s = (created_answer, s)

abbrev fail : Rows Row → Response × Rows Row
fail s = (failed_answer, s)

abbrev no_rows : Rows Row
no_rows k = none

abbrev after_create : Rows Row
after_create = (idempotency_middleware (table Row) "k1" "h1" 60 1000 create_invoice no_rows).1

first_runs :
    idempotency_middleware (table Row) "k1" "h1" 60 1000 create_invoice no_rows
    ≡ (ran created_answer, after_create)
unfolding idempotency_middleware claim_idempotency
first_runs = refl

retry_replays_example :
    idempotency_middleware (table Row) "k1" "h1" 60 2000 fail after_create
    ≡ (replayed created_answer, after_create)
retry_replays_example =
    retry_replays (table Row) "k1" create_invoice (λ u. refl) "h1" 60 1000 no_rows after_create
      created_answer fail 60 2000 first_runs refl (omega arith)

h1_ne_h2 : ◌≢◌ {A = String} "h1" "h2"
h1_ne_h2 e = ground (arith, eq_iff "h1" "h2")

retry_conflicts_example :
    idempotency_middleware (table Row) "k1" "h2" 60 2000 create_invoice after_create
    ≡ (refused "IDEMPOTENCY_CONFLICT", after_create)
retry_conflicts_example =
    retry_conflicts (table Row) "k1" create_invoice (λ u. refl) "h1" 60 1000 no_rows after_create
      created_answer create_invoice "h2" 60 2000 first_runs refl h1_ne_h2 (omega arith)

abbrev after_fail : Rows Row
after_fail = (idempotency_middleware (table Row) "k1" "h1" 60 1000 fail no_rows).1

first_fails :
    idempotency_middleware (table Row) "k1" "h1" 60 1000 fail no_rows
    ≡ (ran failed_answer, after_fail)
unfolding idempotency_middleware claim_idempotency
first_fails = refl

abbrev stale : Rows Row
stale k = if k == "k1" then some (record (new_row "h0" 1 0) { progress = completed }) else none

abbrev after_claim : Rows Row
after_claim = (claim_idempotency (table Row) "k1" "h1" 60 5000 (undisturbed (table Row)) stale).1

stale_claimed :
    claim_idempotency (table Row) "k1" "h1" 60 5000 (undisturbed (table Row)) stale
    ≡ (claimed, after_claim)
unfolding claim_idempotency
stale_claimed = refl

claim-IsGranted_example :
    WasFree (table Row) "k1" "h1" 60 5000 (undisturbed (table Row)) stale
    × IsGranted (table Row) "k1" "h1" 60 5000 (undisturbed (table Row)) after_claim
claim-IsGranted_example =
    claim-IsGranted (table Row) "k1" "h1" 60 5000 (undisturbed (table Row)) stale after_claim
      stale_claimed
