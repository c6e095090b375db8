-- ===== src/Auth.antt =====
-- middleware/clientAuth.js, middleware/auth.js and middleware/requireScope.js: who a request is from.
-- The lookups of clients and API keys and the check of a token are functions that they are given.
pub mod Words
pub mod Laws
use Prim.Native.String
use davepi.Base.{
  Bool, Option, String, [], false, if◌then◌else◌, none, not, some, true, ◌&&◌, ◌==◌, ◌||◌, ◌∷◌,
}
use davepi.Js.{str, truthy}
use davepi.Schema.{User}
use davepi.Errors.{AppError, unauthorized_error, forbidden_error}
use davepi.Acl.{id_of}
use davepi.Scopes.{has_scope}
use davepi.Auth.Words.{remove_bearer, has_bearer, trim, begins}

-- The parts of an Express request that the middleware reads and writes.
pub record Request : Type 0 where
  pub method : String
  pub base_url : String
  pub path : String
  pub authorization : Option String
  pub client_id : Option String
  pub user : Option User

-- `next()` with the request as it was left, or `next(err)`
pub data Verdict : Type 0 where
  pass : Request → Verdict
  deny : AppError → Verdict

-- model/apiClient.js
pub record Client : Type 0 where
  pub id : String
  pub role : String
  pub status : String

-- The answer of a database lookup.
pub data Lookup (A : Type 0) : Type 0 where
  found : A → Lookup A
  missing : Lookup A
  broken : AppError → Lookup A

-- `req.path.startsWith('/graphql') || req.baseUrl === '/graphql'`
unfoldable pub is_graphql : Request → Bool
is_graphql req = begins "/graphql" req.path || req.base_url == "/graphql"

unfoldable pub is_write_method : Request → Bool
is_write_method req = not (req.method == "GET") && not (req.method == "HEAD")

-- `{ user_id, roles: [role], isClient: true }`
abbrev pub client_user : Client → User
client_user client = record {
  user_id = str client.id;
  roles = some (client.role ∷ []);
  is_client = true;
  scopes = none;
}

unfoldable pub client_found : Request → Lookup Client → Verdict
client_found req missing = deny (unauthorized_error "Invalid client ID")
client_found req (broken e) = deny (unauthorized_error "Invalid client ID")
client_found req (found client) =
    if not (client.status == "active")
    then deny (unauthorized_error "Client ID revoked")
    else if is_write_method req && not (is_graphql req)
    then deny (forbidden_error "Client-authenticated requests are read-only")
    else pass (record req { user = some (client_user client) })

-- The client id of the header, trimmed; `none` where it is missing or blank.
unfoldable pub client_id_of : Request → Option String
client_id_of req = elim req.client_id [
  | none ↦ none
  | some raw ↦ if raw == "" || trim raw == "" then none else some (trim raw)
]

abbrev pub is_bearer : Option String → Bool
is_bearer none = false
is_bearer (some header) = has_bearer header

-- `clientAuth`
unfoldable pub client_auth : (String → Lookup Client) → Request → Verdict
unfolding client_found
client_auth find_by_id req =
    if is_bearer req.authorization
    then pass req
    else elim (client_id_of req) [ none ↦ pass req | some id ↦ client_found req (find_by_id id) ]

unfoldable pub key_found : Request → Lookup User → Verdict
key_found req (found user) = pass (record req { user = some user })
key_found req missing = deny (unauthorized_error "Invalid API key")
key_found req (broken e) = deny e

unfoldable pub token_checked : Request → Option User → Verdict
token_checked req none = deny (unauthorized_error "Invalid Token")
token_checked req (some user) = pass (record req { user = some user })

-- The token of the header, without its scheme; `none` where there is none.
unfoldable pub token_of : Request → Option String
token_of req = elim req.authorization [
  | none ↦ none
  | some header ↦ if remove_bearer header == "" then none else some (remove_bearer header)
]

abbrev pub api_key_prefix : String
api_key_prefix = "dpk_"

-- `verifyToken(bool)`
unfoldable pub verify_token :
    (String → Lookup User) → (String → Option User) → Bool → Request → Verdict
unfolding key_found token_checked
verify_token resolve_api_key_user verify_jwt required req =
    if not required
    then pass req
    else if truthy (id_of req.user)
    then pass req
    else elim (token_of req) [
      | none ↦ deny (forbidden_error "A token is required for authentication")
      | some token ↦
          if begins api_key_prefix token
          then key_found req (resolve_api_key_user token)
          else token_checked req (verify_jwt token)
    ]

-- `requireScope`
unfoldable pub require_scope : String → Request → Verdict
require_scope scope req =
    if has_scope req.user scope
    then pass req
    else deny (forbidden_error (String.◌++◌ "API key missing required scope: " scope))

abbrev pub then_do : Verdict → (Request → Verdict) → Verdict
then_do (pass req) k = k req
then_do (deny e) k = deny e
