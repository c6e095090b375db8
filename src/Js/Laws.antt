-- ===== src/Js/Laws.antt =====
-- Reading a property of an object that was written, reduced or merged.
use davepi.Base.{String, arith, eq_iff, false, if◌then◌else◌, refl, ◌==◌, ◌||◌, ◌≡◌}
use davepi.Js.{Value, undefined, Object, empty, prop, get, has_own, put, delete, spread}

pub get-put :
    (j k : String) (v : Value) (o : Object) → get j (put k v o) ≡ (if k == j then v else get j o)
unfolding get put
get-put j k v empty = refl
get-put j k v (prop i w o) = ground (arith, get-put j k v o, eq_iff k j, eq_iff i k, eq_iff i j)

pub has_own-put :
    (j k : String) (v : Value) (o : Object) → has_own j (put k v o) ≡ (k == j || has_own j o)
unfolding has_own put
has_own-put j k v empty = refl
has_own-put j k v (prop i w o) =
    ground (arith, has_own-put j k v o, eq_iff k j, eq_iff i k, eq_iff i j)

pub get-delete :
    (j k : String) (o : Object) → get j (delete k o) ≡ (if k == j then undefined else get j o)
unfolding get delete
get-delete j k empty = ground arith
get-delete j k (prop i w o) = ground (arith, get-delete j k o, eq_iff k j, eq_iff i k, eq_iff i j)

pub has_own-delete :
    (j k : String) (o : Object) → has_own j (delete k o) ≡ (if k == j then false else has_own j o)
unfolding has_own delete
has_own-delete j k empty = ground arith
has_own-delete j k (prop i w o) =
    ground (arith, has_own-delete j k o, eq_iff k j, eq_iff i k, eq_iff i j)

pub get_of_not_own : (k : String) (o : Object) → has_own k o ≡ false → get k o ≡ undefined
unfolding get has_own
get_of_not_own k empty h = refl
get_of_not_own k (prop j v o) h = ground (arith, get_of_not_own k o)

-- No property name stands twice, as in every JavaScript object.
abbrev pub IsDistinct : Object → Type 0
IsDistinct empty = Unit
IsDistinct (prop k v o) = (has_own k o ≡ false) × IsDistinct o

pub put-IsDistinct : (k : String) (v : Value) (o : Object) → IsDistinct o → IsDistinct (put k v o)
unfolding put
put-IsDistinct k v empty h = (unfold has_own in refl, tt)
put-IsDistinct k v (prop j w o) h =
    ground (arith, put-IsDistinct k v o, has_own-put j k v o, eq_iff j k, eq_iff k j)

-- The right object's properties win.
pub get-spread :
    (j : String) (a b : Object)
    → IsDistinct b
    → get j (spread a b) ≡ (if has_own j b then get j b else get j a)
unfolding spread has_own get
get-spread j a empty h = refl
get-spread j a (prop k v b) h =
    ground (arith, get-spread j (put k v a) b, get-put j k v a, eq_iff k j)

pub has_own-spread :
    (j : String) (a b : Object) → has_own j (spread a b) ≡ (has_own j a || has_own j b)
unfolding spread has_own
has_own-spread j a empty = ground arith
has_own-spread j a (prop k v b) =
    ground (arith, has_own-spread j (put k v a) b, has_own-put j k v a)

pub ruleset object_laws = (get-put, has_own-put, get-delete, has_own-delete, eq_iff)
