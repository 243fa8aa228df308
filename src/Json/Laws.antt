-- ===== src/Json/Laws.antt =====
-- Lookup after an assignment or a removal.
use crashlens.Base.{
  Option, none, some, List, [], ◌∷◌, String, ◌≡◌, refl, some, List, [], ◌∷◌, arith, ◌==◌, string_eq,
  if◌then◌else◌, eq_iff,
}
use crashlens.Json.{
  Json, Fields, end, field, get, assign, discard, revise, revised, to_list, of_list,
}

pub get-assign :
    (k j : String) (v : Json) (d : Fields)
    → get j (assign k v d) ≡ (if k == j then some v else get j d)
unfolding get assign
get-assign k j v end = refl
get-assign k j v (field i w rest) =
    ground (arith, eq_iff k j, eq_iff i k, eq_iff i j, get-assign k j v rest)

pub get-discard :
    (k j : String) (d : Fields) → get j (discard k d) ≡ (if k == j then none else get j d)
unfolding get discard
get-discard k j end = ground arith
get-discard k j (field i w rest) =
    ground (arith, eq_iff k j, eq_iff i k, eq_iff i j, get-discard k j rest)

pub to_list-of_list : (vs : List Json) → to_list (of_list vs) ≡ vs
to_list-of_list [] = refl
to_list-of_list (v ∷ vs) = rw (to_list-of_list vs)

abbrev apply : (Json → Option Json) → Option Json → Option Json
apply f none = none
apply f (some v) = f v

revise_cases :
    (k j : String) (f : Json → Option Json) (d : Fields) (o r : Option Json)
    → get k d ≡ o
    → (apply f o ≡ r)
    → get j (revise k f d) ≡ (if k == j then revised f (get j d) else get j d)
unfolding revise
revise_cases k j f d none r e h = ground (arith, eq_iff k j)
revise_cases k j f d (some v) none e h = ground (arith, eq_iff k j)
revise_cases k j f d (some v) (some w) e h = ground (arith, eq_iff k j, get-assign k j w d)

pub get-revise :
    (k j : String) (f : Json → Option Json) (d : Fields)
    → get j (revise k f d) ≡ (if k == j then revised f (get j d) else get j d)
get-revise k j f d = revise_cases k j f d (get k d) (apply f (get k d)) refl refl
