-- ===== src/Scopes.antt =====
-- utils/scopes.js and middleware/requireScope.js: the coarse scopes of an API key.
use davepi.Base.{Bool, Option, String, false, includes, none, some, true}
use davepi.Schema.{User}

-- `hasScope`: a caller with no list of scopes holds them all.
unfoldable pub has_scope : Option User → String → Bool
has_scope none scope = false
has_scope (some user) scope = elim user.scopes [ none ↦ true | some scopes ↦ includes scopes scope ]
