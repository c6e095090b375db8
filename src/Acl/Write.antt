-- ===== src/Acl/Write.antt =====
-- acl.js on writes: which properties of a payload are kept, and who owns what is written.
use davepi.Base.{
  Bool, Bool-cases, List, Option, String, [], ap, arith, eq_iff, false, if◌then◌else◌, includes,
  inl, inr, none, not, refl, select, some, sym, true, ◌&&◌, ◌==◌, ◌||◌, ◌∙◌, ◌∷◌, ◌≡◌,
}
use davepi.Js.{Object, empty, prop, get, has_own, put}
use davepi.Js.Laws.{get-put, has_own-put, IsDistinct, put-IsDistinct}
use davepi.Schema.{User, Field, FieldAcl, Schema}
use davepi.Acl.Read.{misses, refuses-misses}
use davepi.Acl.{
  create, update, refuses, slot_of, action_slot, field_by_name, field_skipped,
  protected_write_fields, Action, user_roles, skipped, keep_writable, filter_writable,
}

module _ (fields : List Field) (roles : List String) (action : Action) where
  keep_writable-IsDistinct :
      (body out : Object) → IsDistinct out → IsDistinct (keep_writable fields roles action body out)
  unfolding keep_writable
  keep_writable-IsDistinct empty out h = h
  keep_writable-IsDistinct (prop k v body) out h =
      elim (Bool-cases (skipped fields roles action k)) [
        | inl e ↦ rw e (keep_writable-IsDistinct body out h)
        | inr e ↦ rw e (keep_writable-IsDistinct body (put k v out) (put-IsDistinct k v out h))
      ]

  get-keep_writable :
      (k : String) (body out : Object)
      → IsDistinct body
      → get k (keep_writable fields roles action body out)
        ≡ (if has_own k body && not (skipped fields roles action k) then get k body else get k out)
  unfolding keep_writable has_own get
  get-keep_writable k empty out h = refl
  get-keep_writable k (prop j v body) out h = ground (
    arith,
    get-keep_writable k body out,
    get-keep_writable k body (put j v out),
    get-put k j v out,
    eq_iff j k,
  )

  has_own-keep_writable :
      (k : String) (body out : Object)
      → has_own k (keep_writable fields roles action body out)
        ≡ ((has_own k body && not (skipped fields roles action k)) || has_own k out)
  unfolding keep_writable has_own
  has_own-keep_writable k empty out = refl
  has_own-keep_writable k (prop j v body) out = ground (
    arith,
    has_own-keep_writable k body out,
    has_own-keep_writable k body (put j v out),
    has_own-put k j v out,
    eq_iff j k,
  )

-- The last field of a name, of which there is seldom more than one.
abbrev pub last_of : List Field → Option Field
last_of [] = none
last_of (f ∷ []) = some f
last_of (f ∷ g ∷ fs) = last_of (g ∷ fs)

-- The list of a field for an action.
abbrev pub shuts : Action → Option FieldAcl → List String → Bool
shuts action none roles = false
shuts create (some acl) roles = misses acl.create roles
shuts update (some acl) roles = misses acl.update roles

-- A name that the server keeps, a file, a computed value, or a list that names roles and none of the
-- caller's.
abbrev pub is_kept_back : List Field → List String → Action → String → Bool
is_kept_back fields roles action k =
    (k == "userId" || k == "accountId") || elim (last_of (select (λ f. f.name == k) fields)) [
      | none ↦ false
      | some f ↦ f.is_file || f.is_computed || shuts action f.acl roles
    ]

abbrev or_this : Field → Option Field → Option Field
or_this f none = some f
or_this f (some g) = some g

last_of-some : (g : Field) (fs : List Field) → (h : Field) × (last_of (g ∷ fs) ≡ some h)
last_of-some g [] = (g, refl)
last_of-some g (f ∷ fs) = last_of-some f fs

field_by_name-cons : (f : Field) (fs : List Field) → last_of (f ∷ fs) ≡ or_this f (last_of fs)
field_by_name-cons f [] = refl
field_by_name-cons f (g ∷ fs) = go (last_of (g ∷ fs)) (last_of-some g fs)
  where
    go : (o : Option Field) → (h : Field) × (o ≡ some h) → o ≡ or_this f o
    go none (h, e) = cc
    go (some x) h = refl

field_by_name-last :
    (fields : List Field) (k : String)
    → field_by_name fields k ≡ last_of (select (λ f. f.name == k) fields)
unfolding field_by_name
field_by_name-last [] k = refl
field_by_name-last (f ∷ fs) k = elim (Bool-cases (f.name == k)) [
  | inl e ↦
      named (f.name == k) (field_by_name fs k) e
      ∙ ap (or_this f) (field_by_name-last fs k)
      ∙ sym (rw e (field_by_name-cons f (select (λ f. f.name == k) fs)))
  | inr e ↦ unnamed (f.name == k) (field_by_name fs k) e ∙ field_by_name-last fs k ∙ rw e refl
]
  where
    chosen : Bool → Option Field → Option Field
    chosen b o = elim o [ some g ↦ some g | none ↦ if b then some f else none ]

    named : (b : Bool) (o : Option Field) → b ≡ true → chosen b o ≡ or_this f o
    named b none e = rw e refl
    named b (some g) e = refl

    unnamed : (b : Bool) (o : Option Field) → b ≡ false → chosen b o ≡ o
    unnamed b none e = rw e refl
    unnamed b (some g) e = refl

shuts-refuses :
    (action : Action) (acl : Option FieldAcl) (roles : List String)
    → refuses (slot_of (action_slot action) acl) roles ≡ shuts action acl roles
shuts-refuses action none roles = unfold refuses in refl
shuts-refuses create (some acl) roles = refuses-misses acl.create roles
shuts-refuses update (some acl) roles = refuses-misses acl.update roles

skipped-is_kept_back :
    (fields : List Field) (roles : List String) (action : Action) (k : String)
    → skipped fields roles action k ≡ is_kept_back fields roles action k
unfolding skipped
skipped-is_kept_back fields roles action k =
    rw (field_by_name-last fields k) (go (last_of (select (λ f. f.name == k) fields)))
  where
    go :
        (o : Option Field)
        → (includes protected_write_fields k || field_skipped o roles action) ≡ (
            (k == "userId" || k == "accountId") || elim o [
              | none ↦ false
              | some f ↦ f.is_file || f.is_computed || shuts action f.acl roles
            ])
    go none =
        unfold field_skipped in
        ground
          (arith, eq_iff k "userId", eq_iff "userId" k, eq_iff k "accountId", eq_iff "accountId" k)
    go (some f) =
        unfold field_skipped in
        ground (
          arith,
          shuts-refuses action f.acl roles,
          eq_iff k "userId",
          eq_iff "userId" k,
          eq_iff k "accountId",
          eq_iff "accountId" k,
        )

-- What is kept of a payload: the properties that the action may set, with their values.
pub record IsWritablePart (fields : List Field) (roles : List String) (action : Action)
    (body out : Object) : Type 0 where
  pub own :
      (k : String) → has_own k out ≡ (has_own k body && not (is_kept_back fields roles action k))
  pub value : (k : String) → has_own k out ≡ true → get k out ≡ get k body
  pub distinct : IsDistinct out

-- For a schema with fields, `filterWritable` keeps exactly the payload's properties that are not
-- `userId` or `accountId` and whose last field, if there is one, is no file, is not computed and has a list
-- for the action that is empty or names one of the caller's roles.
pub filter_writable-IsWritablePart :
    (schema : Schema) (fields : List Field) (user : Option User) (action : Action) (body : Object)
    → schema.fields ≡ some fields
    → IsDistinct body
    → IsWritablePart fields (user_roles user) action body (filter_writable body schema user action)
unfolding filter_writable
filter_writable-IsWritablePart schema fields user action body e d = rw e (record {
  own = λ k. own k;
  value = λ k h. value k h;
  distinct = keep_writable-IsDistinct fields roles action body empty tt;
})
  where
    roles : List String
    roles = user_roles user

    own :
        (k : String)
        → has_own k (keep_writable fields roles action body empty)
          ≡ (has_own k body && not (is_kept_back fields roles action k))
    own k =
        unfold has_own in
        ground (
          arith,
          has_own-keep_writable fields roles action k body empty,
          skipped-is_kept_back fields roles action k,
        )

    value :
        (k : String)
        → has_own k (keep_writable fields roles action body empty) ≡ true
        → get k (keep_writable fields roles action body empty) ≡ get k body
    value k h = ground (
      arith,
      own k,
      get-keep_writable fields roles action k body empty d,
      skipped-is_kept_back fields roles action k,
    )
