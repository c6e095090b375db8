-- ===== src/Runner/Order.antt =====
-- migrations/runner.js: the order of the files and which of them are pending.
use Prim.Native.Char.{code}
use davepi.Base.{
  All, Bool, List, Option, String, [], ap, arith, eq_iff, false, if◌then◌else◌, includes, inl, inr,
  none, not, refl, select, some, text_cases, true, ◌&&◌, ◌<◌, ◌==◌, ◌||◌, ◌∷◌, ◌≡◌, ◌⊎◌,
}
use davepi.Runner.{
  is_js, is_before, insert_sorted, sort, migration_name_from_file, list_migration_files, pending,
}

-- The lexical order of texts.
abbrev pub LexLe : String → String → Type 0
LexLe String.[] t = Unit
LexLe (String.◌∷◌ c s) String.[] = ⊥
LexLe (String.◌∷◌ c s) (String.◌∷◌ d t) = (code c < code d) ⊎ ((code c ≡ code d) × LexLe s t)

LexLe-trans : (s t u : String) → LexLe s t → LexLe t u → LexLe s u
LexLe-trans String.[] t u h k = tt
LexLe-trans (String.◌∷◌ c s) String.[] u h k = absurd h
LexLe-trans (String.◌∷◌ c s) (String.◌∷◌ d t) String.[] h k = absurd k
LexLe-trans (String.◌∷◌ c s) (String.◌∷◌ d t) (String.◌∷◌ e u) (inl h) (inl k) =
    inl (omega (arith, h, k))
LexLe-trans (String.◌∷◌ c s) (String.◌∷◌ d t) (String.◌∷◌ e u) (inl h) (inr k) =
    inl (omega (arith, h, k.0))
LexLe-trans (String.◌∷◌ c s) (String.◌∷◌ d t) (String.◌∷◌ e u) (inr h) (inl k) =
    inl (omega (arith, h.0, k))
LexLe-trans (String.◌∷◌ c s) (String.◌∷◌ d t) (String.◌∷◌ e u) (inr h) (inr k) =
    inr (omega (arith, h.0, k.0), LexLe-trans s t u h.1 k.1)

is_before-LexLe :
    (s t : String) → (is_before s t ≡ true → LexLe s t) × (is_before s t ≡ false → LexLe t s)
unfolding is_before
is_before-LexLe String.[] t = (λ h. tt, λ h. absurd (ground arith))
is_before-LexLe (String.◌∷◌ c s) String.[] = (λ h. absurd (ground arith), λ h. tt)
is_before-LexLe (String.◌∷◌ c s) (String.◌∷◌ d t) =
    let rest = is_before-LexLe s t in (λ h. ground (arith, rest.0), λ h. ground (arith, rest.1))

-- Each text comes before those behind it.
abbrev pub IsSorted : List String → Type 0
IsSorted [] = Unit
IsSorted (f ∷ fs) = All (LexLe f) fs × IsSorted fs

All-insert :
    (P : String → Type 0) (f : String) (gs : List String)
    → P f
    → All P gs
    → All P (insert_sorted f gs)
unfolding insert_sorted
All-insert P f [] p h = (p, tt)
All-insert P f (g ∷ gs) p h = go (is_before f g) (All-insert P f gs p h.1)
  where
    go :
        (b : Bool)
        → All P (insert_sorted f gs)
        → All P (if b then f ∷ g ∷ gs else g ∷ insert_sorted f gs)
    go true k = (p, h)
    go false k = (h.0, k)

All-LexLe : (f g : String) (gs : List String) → LexLe f g → All (LexLe g) gs → All (LexLe f) gs
All-LexLe f g [] h k = tt
All-LexLe f g (u ∷ us) h k = (LexLe-trans f g u h k.0, All-LexLe f g us h k.1)

insert-IsSorted : (f : String) (gs : List String) → IsSorted gs → IsSorted (insert_sorted f gs)
unfolding insert_sorted
insert-IsSorted f [] h = (tt, tt)
insert-IsSorted f (g ∷ gs) h = go (is_before f g) refl (insert-IsSorted f gs h.1)
  where
    go :
        (b : Bool)
        → is_before f g ≡ b
        → IsSorted (insert_sorted f gs)
        → IsSorted (if b then f ∷ g ∷ gs else g ∷ insert_sorted f gs)
    go true e k = let first = (is_before-LexLe f g).0 e in ((first, All-LexLe f g gs first h.0), h)
    go false e k = (All-insert (LexLe g) f gs ((is_before-LexLe f g).1 e) h.0, k)

sort-IsSorted : (fs : List String) → IsSorted (sort fs)
unfolding sort
sort-IsSorted [] = tt
sort-IsSorted (f ∷ fs) = insert-IsSorted f (sort fs) (sort-IsSorted fs)

All-select :
    (P : String → Type 0) (p : String → Bool) (fs : List String) → All P fs → All P (select p fs)
All-select P p [] h = tt
All-select P p (f ∷ fs) h = go (p f) (All-select P p fs h.1)
  where
    go : (b : Bool) → All P (select p fs) → All P (if b then f ∷ select p fs else select p fs)
    go true k = (h.0, k)
    go false k = k

select-IsSorted : (p : String → Bool) (fs : List String) → IsSorted fs → IsSorted (select p fs)
select-IsSorted p [] h = tt
select-IsSorted p (f ∷ fs) h = go (p f) (select-IsSorted p fs h.1)
  where
    go : (b : Bool) → IsSorted (select p fs) → IsSorted (if b then f ∷ select p fs else select p fs)
    go true k = (All-select (LexLe f) p fs h.0, k)
    go false k = k

includes-select :
    (k : String) (p : String → Bool) (fs : List String)
    → includes (select p fs) k ≡ (includes fs k && p k)
includes-select k p [] = refl
includes-select k p (f ∷ fs) = elim (text_cases f k) [
  | inl e ↦ ground (arith, includes-select k p fs, eq_iff f k, ap p e)
  | inr e ↦ ground (arith, includes-select k p fs, eq_iff f k)
]

includes-insert :
    (k f : String) (gs : List String) → includes (insert_sorted f gs) k ≡ (f == k || includes gs k)
unfolding insert_sorted
includes-insert k f [] = refl
includes-insert k f (g ∷ gs) = ground (arith, includes-insert k f gs)

includes-sort : (k : String) (fs : List String) → includes (sort fs) k ≡ includes fs k
unfolding sort
includes-sort k [] = refl
includes-sort k (f ∷ fs) = ground (arith, includes-insert k f (sort fs), includes-sort k fs)

abbrev pub is_entry : Option (List String) → String → Bool
is_entry none f = false
is_entry (some entries) f = includes entries f

-- A file of the directory with the ending `.js` whose name is not among the applied.
abbrev pub is_pending : List String → Option (List String) → String → Bool
is_pending applied entries f =
    is_entry entries f && is_js f && not (includes applied (migration_name_from_file f))

-- The pending files, in the lexical order.
pub pending-exact :
    (applied : List String) (entries : Option (List String))
    → IsSorted (pending applied (list_migration_files entries))
      × ((f : String)
          → includes (pending applied (list_migration_files entries)) f
            ≡ is_pending applied entries f)
unfolding pending list_migration_files
pending-exact applied none = (tt, λ f. refl)
pending-exact applied (some entries) = (
  select-IsSorted (λ f. not (includes applied (migration_name_from_file f)))
      (sort (select is_js entries)) (sort-IsSorted (select is_js entries)),
  λ f. ground (
    arith,
    includes-select f (λ f. not (includes applied (migration_name_from_file f)))
        (sort (select is_js entries)),
    includes-sort f (select is_js entries),
    includes-select f is_js entries,
  ),
)
