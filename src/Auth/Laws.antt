-- ===== src/Auth/Laws.antt =====
-- clientAuth.js, auth.js and requireScope.js: which requests reach a handler, and as whom.
use Prim.Native.String
use davepi.Base.{
  Bool-cases, Option, Option-cases, String, ap, arith, eq_iff, false, inl, inr, none, refl, some,
  subst, true, ◌∙◌, ◌≡◌, ◌⊎◌,
}
use davepi.Js.{truthy}
use davepi.Schema.{User}
use davepi.Errors.{AppError, unauthorized_error, forbidden_error}
use davepi.Acl.{id_of}
use davepi.Scopes.{has_scope}
use davepi.Auth.Words.{begins}
use davepi.Auth.{
  Request, Verdict, pass, deny, Client, Lookup, found, missing, broken, is_graphql, is_write_method,
  client_user, client_found, key_found, token_checked, client_id_of, is_bearer, client_auth,
  token_of, api_key_prefix, verify_token, require_scope, then_do,
}

-- Inversion of the answers that let a request pass.
key_found-pass :
    (req out : Request) (l : Lookup User)
    → key_found req l ≡ pass out
    → (user : User) × (l ≡ found user) × (out ≡ record req { user = some user })
unfolding key_found
key_found-pass req out (found user) h = (user, refl, cc)
key_found-pass req out missing h = cc
key_found-pass req out (broken e) h = cc

token_checked-pass :
    (req out : Request) (o : Option User)
    → token_checked req o ≡ pass out
    → (user : User) × (o ≡ some user) × (out ≡ record req { user = some user })
unfolding token_checked
token_checked-pass req out none h = cc
token_checked-pass req out (some user) h = (user, refl, cc)

client_found-pass :
    (req out : Request) (l : Lookup Client)
    → client_found req l ≡ pass out
    → (client : Client) × (l ≡ found client)
      × (client.status ≡ "active")
      × (out ≡ record req { user = some (client_user client) })
      × ((is_write_method req ≡ false) ⊎ (is_graphql req ≡ true))
unfolding client_found
client_found-pass req out (found client) h =
    (client, refl, ground (arith, eq_iff client.status "active"), ground arith, ground arith)
client_found-pass req out missing h = cc
client_found-pass req out (broken e) h = cc

module _ (find_by_id : String → Lookup Client) (resolve_api_key_user : String → Lookup User)
    (verify_jwt : String → Option User) where
  -- The user of a bearer token.
  abbrev pub IsBearer : Request → User → Type 0
  IsBearer req user =
      (token : String) × (token_of req ≡ some token)
      × (((begins api_key_prefix token ≡ true) × (resolve_api_key_user token ≡ found user))
          ⊎ ((begins api_key_prefix token ≡ false) × (verify_jwt token ≡ some user)))

  -- The user of an active client that reads, or that calls the GraphQL endpoint.
  abbrev pub IsClient : Request → User → Type 0
  IsClient req user =
      (client : Client) × (id : String) × (client_id_of req ≡ some id)
      × (find_by_id id ≡ found client)
      × (client.status ≡ "active")
      × (user ≡ client_user client)
      × ((is_write_method req ≡ false) ⊎ (is_graphql req ≡ true))

  verify_token-pass :
      (req out : Request)
      → verify_token resolve_api_key_user verify_jwt true req ≡ pass out
      → ((out ≡ req) × (truthy (id_of req.user) ≡ true))
        ⊎ ((user : User) × (out ≡ record req { user = some user }) × IsBearer req user)
  unfolding verify_token
  verify_token-pass req out h = elim (Bool-cases (truthy (id_of req.user))) [
    | inl known ↦ inl (ground arith, known)
    | inr unknown ↦ inr (elim (Option-cases (token_of req)) [
      | inl e ↦ absurd (ground arith)
      | inr (token, e) ↦ elim (Bool-cases (begins api_key_prefix token)) [
        | inl key ↦
            let (user, l, same) =
              key_found-pass req out (resolve_api_key_user token) (ground arith) in
            (user, same, (token, e, inl (key, l)))
        | inr jwt ↦
            let (user, l, same) = token_checked-pass req out (verify_jwt token) (ground arith) in
            (user, same, (token, e, inr (jwt, l)))
      ]
    ])
  ]

  client_auth-pass :
      (req out : Request)
      → client_auth find_by_id req ≡ pass out
      → (out ≡ req)
        ⊎ ((user : User) × (out ≡ record req { user = some user })
            × (is_bearer req.authorization ≡ false)
            × IsClient req user)
  unfolding client_auth
  client_auth-pass req out h = elim (Bool-cases (is_bearer req.authorization)) [
    | inl bearer ↦ inl (ground arith)
    | inr other ↦ elim (Option-cases (client_id_of req)) [
      | inl e ↦ inl (ground arith)
      | inr (id, e) ↦
          let (client, l, active, same, reads) =
            client_found-pass req out (find_by_id id) (ground arith) in
          inr (client_user client, same, other, (client, id, e, l, active, refl, reads))
    ]
  ]

  -- A request that comes with no user and passes `clientAuth` and then `auth(true)` carries the user of
  -- its bearer token, or, where it has no bearer header, the user of an active client, and then it does
  -- not write, or it calls the GraphQL endpoint.
  pub authenticate_sound :
      (req out : Request)
      → req.user ≡ none
      → then_do (client_auth find_by_id req) (verify_token resolve_api_key_user verify_jwt true)
        ≡ pass out
      → (user : User) × (out.user ≡ some user)
        × (IsBearer req user ⊎ ((is_bearer req.authorization ≡ false) × IsClient req user))
  authenticate_sound req out fresh h = go (client_auth find_by_id req) refl h
    where
      no_id : truthy (id_of req.user) ≡ false
      no_id = rw fresh (unfold truthy in refl)

      go :
          (v : Verdict)
          → client_auth find_by_id req ≡ v
          → then_do v (verify_token resolve_api_key_user verify_jwt true) ≡ pass out
          → (user : User) × (out.user ≡ some user)
            × (IsBearer req user ⊎ ((is_bearer req.authorization ≡ false) × IsClient req user))
      go (deny e) done k = cc
      go (pass mid) done k = elim (client_auth-pass req mid done) [
        | inl same ↦ elim (verify_token-pass mid out k) [
          | inl (_, known) ↦
              absurd (cc (ap (λ (r : Request). truthy (id_of r.user)) same, no_id, known))
          | inr (user, set, bearer) ↦ (
            user,
            ap (λ (r : Request). r.user) set,
            inl (subst (λ m. IsBearer m user) same bearer),
          )
        ]
        | inr (user, same, other, client) ↦ elim (verify_token-pass mid out k) [
          | inl (kept, _) ↦ (user, ap (λ (r : Request). r.user) (kept ∙ same), inr (other, client))
          | inr (user', set, bearer) ↦ (
            user',
            ap (λ (r : Request). r.user) set,
            inl (unfold token_of in subst (λ m. IsBearer m user') same bearer),
          )
        ]
      ]

  -- A request with no user and neither credential is refused with 403 on a protected route.
  pub authenticate-anonymous :
      (req : Request)
      → truthy (id_of req.user) ≡ false
      → req.authorization ≡ none
      → client_id_of req ≡ none
      → then_do (client_auth find_by_id req) (verify_token resolve_api_key_user verify_jwt true)
        ≡ deny (forbidden_error "A token is required for authentication")
  unfolding client_auth verify_token token_of
  authenticate-anonymous req no_id no_header no_client = ground (arith, ap is_bearer no_header)

  -- For a request with no user yet, a token that is neither a known API key nor a valid token of a user is
  -- refused with 401.
  pub verify_token-invalid :
      (req : Request) (token : String)
      → truthy (id_of req.user) ≡ false
      → token_of req ≡ some token
      → resolve_api_key_user token ≡ missing
      → verify_jwt token ≡ none
      → (e : AppError) × (verify_token resolve_api_key_user verify_jwt true req ≡ deny e)
        × (e.status ≡ 401)
  unfolding verify_token
  verify_token-invalid req token no_id e missed bad =
      elim (Bool-cases (begins api_key_prefix token)) [
        | inl key ↦ (unauthorized_error "Invalid API key", ground arith, refl)
        | inr jwt ↦ (unauthorized_error "Invalid Token", ground arith, refl)
      ]

-- A request passes `requireScope` exactly when its caller holds the scope, unchanged; otherwise it is
-- refused with 403.
pub require_scope-exact :
    (scope : String) (req : Request)
    → ((has_scope req.user scope ≡ true) × (require_scope scope req ≡ pass req))
      ⊎ ((has_scope req.user scope ≡ false)
          × ((e : AppError) × (require_scope scope req ≡ deny e) × (e.status ≡ 403)))
unfolding require_scope
require_scope-exact scope req = elim (Bool-cases (has_scope req.user scope)) [
  | inl e ↦ inl (e, ground arith)
  | inr e ↦
      inr (
        e,
        (forbidden_error (String.◌++◌ "API key missing required scope: " scope), rw e refl, refl),
      )
]
