-- ===== src/Ledger/Categories/Reachable.antt =====
-- The step relation of the operations of internal/modules/ledger/categories.go.
use astrum.Prelude.{ℕ, suc, ◌≡◌, refl, Bool, true, false, subst, ap, ◌∙◌, Bool-cases, inl, inr}
use astrum.Prelude.Eq.{Text, nat_eq, pair_eq}
use astrum.Result.{
  Result, ok, >>=-elim, passed, ok_unique, not_found, category_mismatch, unknown_ledger,
  unknown_currency, internal,
}
use astrum.Ledger.Types.{Uuid, Time}
use astrum.Ledger.Json.{Metadata}
use astrum.Ledger.State.{or_err}
use astrum.Ledger.Service.Details.{Details, UpdateInput, apply_update, same_details}
use astrum.Ledger.Service.Accounts.{Directory, row_by_id}
use astrum.Ledger.Categories.{
  children, Category, CreateCategoryInput, Categories, category_by_id, nest, set_child, set_member,
  delete_category, validate_category, create_category, update_category, write_category,
}
use astrum.Ledger.Categories.Walks.{Chain}
use astrum.Ledger.Categories.Shallow.{
  AreShallow-acyclic, AreShallow, nest-AreShallow, remove_pairs-AreShallow,
}

set_child-AreShallow :
    (parent child : Uuid) (nested : Bool) (t : Categories) {u : Categories}
    → AreShallow t.edges
    → set_child parent child nested t ≡ ok u
    → AreShallow u.edges
unfolding set_child
set_child-AreShallow parent child true t s h =
    >>=-elim (or_err (category_by_id parent t.rows) not_found) _ h λ p e1 h1.
      >>=-elim (or_err (category_by_id child t.rows) not_found) _ h1 λ c e2 h2.
        >>=-elim (nest p.id c.id t.edges) _ (passed _ category_mismatch h2).1 λ es e3 h3.
          subst (λ v. AreShallow v.edges) (ok_unique refl h3)
            (nest-AreShallow p.id c.id t.edges s e3)
set_child-AreShallow parent child false t s h =
    >>=-elim (or_err (category_by_id parent t.rows) not_found) _ h λ p e1 h1.
      subst (λ v. AreShallow v.edges) (ok_unique refl h1) (remove_pairs-AreShallow _ t.edges s)

set_member-edges :
    (category account : Uuid) (member : Bool) (d : Directory) (t : Categories) {u : Categories}
    → set_member category account member d t ≡ ok u
    → t.edges ≡ u.edges
unfolding set_member
set_member-edges category account true d t h =
    >>=-elim (or_err (category_by_id category t.rows) not_found) _ h λ c e1 h1.
      >>=-elim (or_err (row_by_id account d.rows) not_found) _ h1
        λ row e2 h2. ap (λ v. v.edges) (ok_unique refl (passed _ category_mismatch h2).1)
set_member-edges category account false d t h =
    >>=-elim (or_err (category_by_id category t.rows) not_found) _ h
      λ c e1 h1. ap (λ v. v.edges) (ok_unique refl h1)

delete_category-AreShallow :
    (id : Uuid) (t : Categories) {u : Categories}
    → AreShallow t.edges
    → delete_category id t ≡ ok u
    → AreShallow u.edges
unfolding delete_category
delete_category-AreShallow id t s h =
    >>=-elim (or_err (category_by_id id t.rows) not_found) _ h λ c e1 h1.
      subst (λ v. AreShallow v.edges) (ok_unique refl h1) (remove_pairs-AreShallow _ t.edges s)

write_category-edges :
    (c : Category) (details : Details) (t : Categories)
    → t.edges ≡ (write_category c details t).0.edges
unfolding write_category
write_category-edges c details t = elim (Bool-cases (same_details c.details details)) [
  | inl e ↦ rw e refl
  | inr e ↦ rw e refl
]

module _ (reads_object : Text → Bool) (text_of : Metadata → Text) where
  create_category-edges :
      (raw : Text) (new_id : Result Uuid) (now : Time) (i : CreateCategoryInput) (d : Directory)
      (t : Categories) {x : Categories × Category}
      → create_category reads_object text_of raw new_id now i d t ≡ ok x
      → t.edges ≡ x.0.edges
  unfolding create_category
  create_category-edges raw new_id now i d t h =
      >>=-elim (validate_category reads_object text_of raw i) _ h λ u e1 h1.
        >>=-elim new_id _ h1 λ id e2 h2.
          ap (λ (y : Categories × Category). y.0.edges)
            (ok_unique refl
              (passed _ unknown_currency (passed _ unknown_ledger (passed _ internal h2).1).1).1)

  update_category-edges :
      (id : Uuid) (i : UpdateInput) (t : Categories) {x : Categories × Category}
      → update_category reads_object text_of id i t ≡ ok x
      → t.edges ≡ x.0.edges
  unfolding update_category
  update_category-edges id i t h =
      >>=-elim (or_err (category_by_id id t.rows) not_found) _ h λ c e1 h1.
        >>=-elim (apply_update reads_object text_of c.details i true) _ h1 λ details e2 h2.
          write_category-edges c details t
          ∙ ap (λ (y : Categories × Category). y.0.edges) (ok_unique refl h2)

  -- One operation that succeeds.
  pub data Step (t : Categories) (u : Categories) : Type 0 where
    create_step :
        (raw : Text) (new_id : Result Uuid) (now : Time) (i : CreateCategoryInput) (d : Directory)
        (c : Category)
        → create_category reads_object text_of raw new_id now i d t ≡ ok (u, c)
        → Step t u
    update_step :
        (id : Uuid) (i : UpdateInput) (c : Category)
        → update_category reads_object text_of id i t ≡ ok (u, c)
        → Step t u
    delete_step : (id : Uuid) → delete_category id t ≡ ok u → Step t u
    member_step :
        (category account : Uuid) (member : Bool) (d : Directory)
        → set_member category account member d t ≡ ok u
        → Step t u
    child_step :
        (parent child : Uuid) (nested : Bool) → set_child parent child nested t ≡ ok u → Step t u

  pub data Reach (t : Categories) : Categories → Type 0 where
    here : Reach t t
    next : {u v : Categories} → Reach t u → Step u v → Reach t v

module _ (reads_object : Text → Bool) (text_of : Metadata → Text) where
  Step-AreShallow :
      {t u : Categories} → Step reads_object text_of t u → AreShallow t.edges → AreShallow u.edges
  Step-AreShallow {t} (create_step raw new_id now i d c h) s =
      subst AreShallow (create_category-edges reads_object text_of raw new_id now i d t h) s
  Step-AreShallow {t} (update_step id i c h) s =
      subst AreShallow (update_category-edges reads_object text_of id i t h) s
  Step-AreShallow {t} (delete_step id h) s = delete_category-AreShallow id t s h
  Step-AreShallow {t} (member_step category account member d h) s =
      subst AreShallow (set_member-edges category account member d t h) s
  Step-AreShallow {t} (child_step parent child nested h) s =
      set_child-AreShallow parent child nested t s h

  Reach-edges :
      {t u : Categories} → Reach reads_object text_of t u → AreShallow t.edges → AreShallow u.edges
  Reach-edges here s = s
  Reach-edges (next r q) s = Step-AreShallow q (Reach-edges r s)

  -- From categories whose chains have at most seven of them, every sequence of creations, updates and
  -- deletions of categories and of changes to their members and children reaches only such categories,
  -- and none where a category is below itself.
  pub Reach-AreShallow :
      {t u : Categories}
      → Reach reads_object text_of t u
      → AreShallow t.edges
      → AreShallow u.edges × ((n : ℕ) (a : Uuid) → ¬ Chain (children u.edges) (suc n) a a)
  Reach-AreShallow {t} {u} r s =
      let shallow = Reach-edges r s in (shallow, AreShallow-acyclic u.edges shallow)
