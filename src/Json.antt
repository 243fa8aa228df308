-- ===== src/Json.antt =====
-- JSON values as Python reads them: an object is a dict in the order of insertion. A float keeps
-- its text and whether it is nonzero.
pub mod Laws
pub mod Numbers
use crashlens.Base.{
  ℕ, String, Bool, true, false, not, Option, none, some, List, [], ◌∷◌, ◌==◌, string_eq, nat_eq,
  if◌then◌else◌,
}
use crashlens.Json.Numbers.{ℤ, pos}

mutual
  pub data Json : Type 0 where
    null : Json
    bool : Bool → Json
    int : ℤ → Json
    float : Bool → String → Json
    str : String → Json
    arr : Items → Json
    obj : Fields → Json

  pub data Items : Type 0 where
    nil : Items
    cons : Json → Items → Items

  pub data Fields : Type 0 where
    end : Fields
    field : String → Json → Fields → Fields

-- `d.get(k)`, with `none` for a missing key.
unfoldable pub get : String → Fields → Option Json
get k end = none
get k (field j v rest) = if j == k then some v else get k rest

-- `d.get(k)` where None and a missing key are one.
abbrev pub or_null : Option Json → Json
or_null none = null
or_null (some v) = v

abbrev pub get_or_null : String → Fields → Json
get_or_null k d = or_null (get k d)

-- `d[k] = v`: in place, or at the end.
unfoldable pub assign : String → Json → Fields → Fields
assign k v end = field k v end
assign k v (field j w rest) = if j == k then field j v rest else field j w (assign k v rest)

-- `d.pop(k, None)`.
unfoldable pub discard : String → Fields → Fields
discard k end = end
discard k (field j w rest) =
    let others = discard k rest in if j == k then others else field j w others

abbrev pub to_list : Items → List Json
to_list nil = []
to_list (cons v vs) = v ∷ to_list vs

abbrev pub of_list : List Json → Items
of_list [] = nil
of_list (v ∷ vs) = cons v (of_list vs)

abbrev pub entries : Fields → List (String × Json)
entries end = []
entries (field k v rest) = (k, v) ∷ entries rest

-- Python's truth value of a JSON value.
unfoldable pub truthy : Json → Bool
truthy null = false
truthy (bool b) = b
truthy (int (pos n)) = not (n == 0)
truthy (int n) = true
truthy (float nonzero text) = nonzero
truthy (str s) = not (s == "")
truthy (arr nil) = false
truthy (arr vs) = true
truthy (obj end) = false
truthy (obj d) = true

-- `isinstance(v, str)` and `isinstance(v, dict)`, with the value.
abbrev pub as_str : Json → Option String
as_str (str s) = some s
as_str _ = none

abbrev pub as_obj : Json → Option Fields
as_obj (obj d) = some d
as_obj _ = none

abbrev pub as_arr : Json → Option Items
as_arr (arr vs) = some vs
as_arr _ = none

-- `isinstance(v, int)`: a Boolean is an int too.
abbrev pub as_int : Json → Option ℤ
as_int (int n) = some n
as_int (bool b) = some (pos (if b then 1 else 0))
as_int _ = none

-- `if isinstance(d.get(k), T): d[k] = f(d[k])`, where `f` is none on a value of another type.
unfoldable pub revise : String → (Json → Option Json) → Fields → Fields
revise k f d = elim (get k d) [
  | none ↦ d
  | some v ↦ elim (f v) [ none ↦ d | some w ↦ assign k w d ]
]

abbrev pub on_text : (String → Json) → Json → Option Json
on_text f (str s) = some (f s)
on_text f _ = none

abbrev pub on_list : (List Json → List Json) → Json → Option Json
on_list f (arr vs) = some (arr (of_list (f (to_list vs))))
on_list f _ = none

abbrev pub on_dict : (Fields → Fields) → Json → Option Json
on_dict f (obj d) = some (obj (f d))
on_dict f _ = none

-- The value that `revise` leaves under its key.
abbrev pub revised : (Json → Option Json) → Option Json → Option Json
revised f none = none
revised f (some v) = elim (f v) [ none ↦ some v | some w ↦ some w ]
