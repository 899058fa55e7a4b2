-- ===== src/Admin/Listing/Scope.antt =====
-- An administrator of a workspace sees rows of that workspace only (api/admin.py).
use mathlib.Core.List.Memᴰ
use mathlib.Core.Path.{subst}
use grantora.Prelude.{
  ℕ, zero, suc, ◌≤◌, String, ◌≡◌, refl, sym, ap, ◌∙◌, Bool, true, ◌||◌, Option, none, some, List,
  [], ◌∷◌, filter, take, drop, length, leb, arith, Memᴰ, filter-mem, ◌==◌, nat_eq, string_eq,
  nat_beq_iff, Bool-cases, inl, inr,
}
use grantora.Errors.{Result, ok, err}
use grantora.Db.Models.{Db, Binding, Secret, is_active}
use grantora.Db.Queries.Sorting.{sort_by-mem}
use grantora.Db.Queries.Joins.{sort_by}
use grantora.Auth.Admin.{AdminPrincipal}
use grantora.Admin.{manages}
use grantora.Admin.Listing.{
  inspect_denied, workspace_filter_for_admin, is_wanted_id, BindingQuery, binding_wanted,
  list_bindings, SecretQuery, secret_wanted, list_secrets,
}

module _ {A : Type 0} where
  take-mem : (n : ℕ) (xs : List A) {x : A} → Memᴰ x (take n xs) → Memᴰ x xs
  take-mem zero xs m = absurd (Memᴰ.not-nil m)
  take-mem (suc n) [] m = m
  take-mem (suc n) (y ∷ ys) (Memᴰ.head e) = Memᴰ.head e
  take-mem (suc n) (y ∷ ys) (Memᴰ.tail m) = Memᴰ.tail (take-mem n ys m)

  drop-mem : (n : ℕ) (xs : List A) {x : A} → Memᴰ x (drop n xs) → Memᴰ x xs
  drop-mem zero xs m = m
  drop-mem (suc n) [] m = m
  drop-mem (suc n) (y ∷ ys) m = Memᴰ.tail (drop-mem n ys m)

  length-take : (n : ℕ) (xs : List A) → length (take n xs) ≤ n
  length-take zero xs = omega arith
  length-take (suc n) [] = omega arith
  length-take (suc n) (y ∷ ys) = omega (arith, length-take n ys)

own-manages :
    (own k : ℕ) (admin : AdminPrincipal) {f : Option ℕ}
    → admin.workspace_id ≡ some own
    → some own ≡ f
    → is_wanted_id f k ≡ true
    → manages admin k ≡ true
own-manages own k admin e same wanted =
    let here : k ≡ own = (nat_beq_iff _ _).0 (ap (λ g. is_wanted_id g k) same ∙ wanted) in
    rw e ((nat_beq_iff own k).1 (sym here))

-- A workspace that passes the filter is one that the administrator manages.
within_manages :
    (own requested : Option ℕ) (admin : AdminPrincipal) {f : Option ℕ} (k : ℕ)
    → admin.workspace_id ≡ own
    → workspace_filter_for_admin admin requested ≡ ok f
    → is_wanted_id f k ≡ true
    → manages admin k ≡ true
unfolding workspace_filter_for_admin
within_manages none requested admin k e h wanted = rw e refl
within_manages (some own) none admin {f} k e h wanted =
    let h' : ok (some own) ≡ ok f = rw (workspace_filter_for_admin, e) at h in
    let same : some own ≡ f = cc in own-manages own k admin e same wanted
within_manages (some own) (some r) admin {f} k e h wanted = elim (Bool-cases (r == own)) [
  | inl same ↦
      let h' : ok (some own) ≡ ok f = rw (workspace_filter_for_admin, e, same) at h in
      let here : some own ≡ f = cc in own-manages own k admin e here wanted
  | inr other ↦
      let h' : err inspect_denied ≡ ok f = rw (workspace_filter_for_admin, e, other) at h in cc
]

-- A page of rows: each stands in the table, is in a workspace that the administrator manages, and is
-- active unless the query asks for the others; there are no more than the limit.
pub record IsPage {A : Type 0} (workspace_of : A → ℕ) (status_of : A → String)
    (admin : AdminPrincipal) (rows : List A) (all_statuses : Bool) (limit : ℕ) (page : List A)
    : Type 0 where
  pub listed : (x : A) → Memᴰ x page → Memᴰ x rows
  pub managed : (x : A) → Memᴰ x page → manages admin (workspace_of x) ≡ true
  pub active : (x : A) → Memᴰ x page → (all_statuses || is_active (status_of x)) ≡ true
  pub short : length page ≤ limit

-- A row of the page is a row of the table that meets the conditions.
pub on_page :
    {A : Type 0} (le : A → A → Bool) (p : A → Bool) (rows : List A) (limit offset : ℕ) {x : A}
    → Memᴰ x (take limit (drop offset (sort_by le (filter p rows))))
    → Memᴰ x rows × (p x ≡ true)
on_page le p rows limit offset m =
    filter-mem p rows (sort_by-mem le (filter p rows) (drop-mem offset _ (take-mem limit _ m)))

module _ (admin : AdminPrincipal) (db : Db) where
  abbrev BindingPage : BindingQuery → List Binding → Type 0
  BindingPage q page =
      IsPage (λ b. b.workspace_id) (λ b. b.status) admin db.bindings q.include_disabled q.limit page

  abbrev SecretPage : SecretQuery → List Secret → Type 0
  SecretPage q page =
      IsPage (λ t. t.workspace_id) (λ t. t.status) admin db.secrets q.include_revoked q.limit page

  bindings_page :
      (q : BindingQuery) (r : Result (Option ℕ)) {page : List Binding}
      → workspace_filter_for_admin admin q.workspace_id ≡ r
      → list_bindings admin db q ≡ ok page
      → BindingPage q page
  unfolding list_bindings
  bindings_page q (err e) {page} passed h =
      let h' : err e ≡ ok page = rw (list_bindings, passed) at h in cc
  bindings_page q (ok f) {page} passed h =
      let le : Binding → Binding → Bool = λ b c. leb b.id c.id in
      let rows =
        take q.limit (drop q.offset (sort_by le (filter (binding_wanted q f) db.bindings))) in
      let h' : ok rows ≡ ok page = rw (list_bindings, passed) at h in
      let same : rows ≡ page = cc in
      let sound : (b : Binding) → Memᴰ b rows → Memᴰ b db.bindings × (binding_wanted q f b ≡ true) =
        λ b m. on_page le (binding_wanted q f) db.bindings q.limit q.offset m in
      subst (BindingPage q) same (record {
        listed = λ b m. (sound b m).0;
        managed = λ b m.
            within_manages _ q.workspace_id admin b.workspace_id refl passed
              (let met = (sound b m).1 in ground arith);
        active = λ b m. let met = (sound b m).1 in ground arith;
        short = length-take q.limit _;
      })

  secrets_page :
      (q : SecretQuery) (r : Result (Option ℕ)) {page : List Secret}
      → workspace_filter_for_admin admin q.workspace_id ≡ r
      → list_secrets admin db q ≡ ok page
      → SecretPage q page
  unfolding list_secrets
  secrets_page q (err e) {page} passed h =
      let h' : err e ≡ ok page = rw (list_secrets, passed) at h in cc
  secrets_page q (ok f) {page} passed h =
      let le : Secret → Secret → Bool = λ t u. leb t.id u.id in
      let rows =
        take q.limit (drop q.offset (sort_by le (filter (secret_wanted q f) db.secrets))) in
      let h' : ok rows ≡ ok page = rw (list_secrets, passed) at h in
      let same : rows ≡ page = cc in
      let sound : (t : Secret) → Memᴰ t rows → Memᴰ t db.secrets × (secret_wanted q f t ≡ true) =
        λ t m. on_page le (secret_wanted q f) db.secrets q.limit q.offset m in
      subst (SecretPage q) same (record {
        listed = λ t m. (sound t m).0;
        managed = λ t m.
            within_manages _ q.workspace_id admin t.workspace_id refl passed
              (let met = (sound t m).1 in ground arith);
        active = λ t m. let met = (sound t m).1 in ground arith;
        short = length-take q.limit _;
      })

  -- The bindings that are listed stand in the table, are all in workspaces that the administrator
  -- manages, are active unless the query asks for disabled ones, and are no more than the limit.
  pub list_bindings-IsPage :
      (q : BindingQuery) {page : List Binding}
      → list_bindings admin db q ≡ ok page
      → IsPage
          (λ b. b.workspace_id)
          (λ b. b.status)
          admin
          db.bindings
          q.include_disabled
          q.limit
          page
  list_bindings-IsPage q h = bindings_page q _ refl h

  -- The secrets that are listed stand in the table, are all in workspaces that the administrator
  -- manages, are active unless the query asks for revoked ones, and are no more than the limit.
  pub list_secrets-IsPage :
      (q : SecretQuery) {page : List Secret}
      → list_secrets admin db q ≡ ok page
      → IsPage (λ t. t.workspace_id) (λ t. t.status) admin db.secrets q.include_revoked q.limit page
  list_secrets-IsPage q h = secrets_page q _ refl h
