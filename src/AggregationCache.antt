-- ===== src/AggregationCache.antt =====
-- utils/aggregationCache.js: a bounded cache with expiry. The store is the list of a Map's entries in
-- insertion order; times are milliseconds, and `now` is what the clock shows at the call.
pub mod Map
pub mod Laws
pub mod Keys
pub mod Entries
use Prim.Native.Nat.{max}
use Prim.Native.String
use davepi.Js.{Value, to_text}
use davepi.Base.{Option, String, [], if◌then◌else◌, leb, length, ltb, none, some, ℕ, ◌*◌, ◌+◌}
use davepi.AggregationCache.Map.{Store, find, remove, store_at, remove_oldest}

pub record Entry (V : Type 0) : Type 0 where
  pub value : V
  pub expires_at : ℕ

-- What `createAggregationCache` closes over.
pub record Cache (V : Type 0) : Type 0 where
  pub max_entries : ℕ
  pub store : Store (Entry V)

module _ {V : Type 0} where
  -- `createAggregationCache`
  abbrev pub create_aggregation_cache : ℕ → Cache V
  create_aggregation_cache max_entries = record { max_entries = max_entries; store = [] }

  -- A hit moves its entry to the end; an expired entry is dropped.
  unfoldable pub read : Cache V → String → Option (Entry V) → ℕ → Option V × Cache V
  read c k none now = (none, c)
  read c k (some entry) now =
      if ltb entry.expires_at now
      then (none, record c { store = remove k c.store })
      else (some entry.value, record c { store = store_at k entry (remove k c.store) })

  -- `get`
  unfoldable pub get : Cache V → String → ℕ → Option V × Cache V
  unfolding read
  get c k now = read c k (find k c.store) now

  -- At the bound the oldest entry makes room.
  unfoldable pub make_room : Cache V → Store (Entry V)
  make_room c = if leb c.max_entries (length c.store) then remove_oldest c.store else c.store

  -- `set`, with a whole number of seconds, or 0 for what is no number
  unfoldable pub set : Cache V → String → V → ℕ → ℕ → Cache V
  set c k value ttl_seconds now = record c {
    store =
        store_at k (record { value = value; expires_at = now + max 1 ttl_seconds * 1000 })
          (make_room c);
  }

  -- `clear` and `size`
  abbrev pub clear : Cache V → Cache V
  clear c = record c { store = [] }

  abbrev pub size : Cache V → ℕ
  size c = length c.store

-- `key`, with the text of the parameters
unfoldable pub key : String → String → Value → String → String
key resource name user_id params = String.◌++◌ resource (
    String.◌++◌ ":"
      (String.◌++◌ name (String.◌++◌ ":" (String.◌++◌ (to_text user_id) (String.◌++◌ ":" params)))))
