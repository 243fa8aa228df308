-- ===== src/Issues/Pages.antt =====
-- The pages of `list_issues` in server/app/issues.py, taken together.
use crashlens.Base.{
  ℕ, zero, suc, ◌+◌, ◌-◌, ◌*◌, ◌≡◌, refl, ap, String, Bool, true, Option, none, some, List, [], ◌∷◌,
  ◌++◌, take, drop, arith,
}
use crashlens.Store.{Issue, Tenant, has_project}
use crashlens.Issues.Queries.{Filter, Sort, Page, list_issues, order_by, selected}

take-nil {ℓ} : {A : Type ℓ} (n : ℕ) → take {A = A} n [] ≡ []
take-nil zero = refl
take-nil (suc n) = refl

take-append_drop {ℓ} :
    {A : Type ℓ} (m n : ℕ) (xs : List A) → take m xs ++ take n (drop m xs) ≡ take (m + n) xs
take-append_drop zero n xs = let e : 0 + n ≡ n = omega arith in rw e refl
take-append_drop (suc m) n [] = let e : suc m + n ≡ suc (m + n) = omega arith in rw e (take-nil n)
take-append_drop (suc m) n (x ∷ xs) =
    let e : suc m + n ≡ suc (m + n) = omega arith in
    rw e (ap (λ l. x ∷ l) (take-append_drop m n xs))

-- The rows of a page, none where there is no project.
abbrev rows : Option Page → List Issue
rows none = []
rows (some page) = page.issues

-- What one who asks for the pages 1, 2, ..., k one after another collects.
unfoldable pub first_pages :
    (String → String → Bool) → String → Filter → Option String → Sort → ℕ → ℕ → Tenant → List Issue
first_pages ilike project filter q sort zero per_page t = []
first_pages ilike project filter q sort (suc k) per_page t =
    first_pages ilike project filter q sort k per_page t
    ++ rows (list_issues ilike project filter q sort (suc k) per_page t)

-- The pages 1 to k of a project that is there, one after another, are the first k * per_page of its
-- matching issues in the order that was asked for.
pub first_pages_lem :
    (ilike : String → String → Bool) (project : String) (filter : Filter) (q : Option String)
    (sort : Sort) (k per_page : ℕ) (t : Tenant)
    → has_project t project ≡ true
    → first_pages ilike project filter q sort k per_page t
      ≡ take (k * per_page) (order_by sort (selected ilike project filter q t))
unfolding first_pages list_issues
first_pages_lem ilike project filter q sort zero per_page t there =
    let e : 0 * per_page ≡ 0 = omega arith in rw e refl
first_pages_lem ilike project filter q sort (suc k) per_page t there =
    let all = order_by sort (selected ilike project filter q t) in
    let e : suc k * per_page ≡ k * per_page + per_page = omega arith in
    let f : suc k - 1 ≡ k = omega arith in
    let ih = first_pages_lem ilike project filter q sort k per_page t there in
    rw (there, e, f, ih) (take-append_drop (k * per_page) per_page all)
