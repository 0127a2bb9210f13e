-- ===== src/Ledger/Holds/Captured.antt =====
-- What a change that releases one hold frees, and no other: for `captureHold` of
-- internal/modules/ledger/holds.go.
pub mod Kept
use astrum.Prelude.{
  ℕ, ◌-◌, ◌≤◌, ◌≡◌, refl, sym, ap, ◌∙◌, subst, true, false, ◌==◌, leb, leb→le, none, some, List, [],
  ◌∷◌, Bool-cases, Option-cases, inl, inr, some_unique, arith,
}
use astrum.Prelude.Eq.{nat_eq, text_eq}
use astrum.Money.Amount.{Amount}
use astrum.Money.Amount.Totals.{size}
use astrum.Ledger.Types.{Uuid, Side, Posting, TransactionStatus}
use astrum.Ledger.State.{BalanceChange}
use astrum.Ledger.State.Tally.{
  Tally, change, book, book_all, free_all, unbook_all, free, then_on, ◌>=>◌,
}

book-held :
    (status : TransactionStatus) (s : Side) (n : ℕ) (t : Tally) → (book status s n t).held ≡ t.held
unfolding book
book-held status s n t = ground arith

book_all-held :
    (j : Uuid) (status : TransactionStatus) (ps : List Posting) (t : Tally)
    → (book_all j status ps t).held ≡ t.held
unfolding book_all
book_all-held j status [] t = refl
book_all-held j status (p ∷ ps) t = elim (Bool-cases (p.account_id == j)) [
  | inl e ↦
      rw (e, book_all) (book_all-held j status ps _ ∙ book-held status p.side (size p.amount) t)
  | inr e ↦ rw (e, book_all) (book_all-held j status ps t)
]

freed : (n : ℕ) (t u : Tally) → free n t ≡ some u → (n ≤ t.held) × (u.held ≡ t.held - n)
unfolding free
freed n t u h = elim (Bool-cases (leb n t.held)) [
  | inl e ↦ (leb→le n t.held e, ap (λ x. x.held) (sym (some_unique refl (rw e at h))))
  | inr e ↦ (let no : none ≡ some u = rw e at h in absurd (cc))
]

-- A change that takes nothing back and releases one hold of `n` on the account `id`.
pub record ReleasesOne (c : BalanceChange) (id : Uuid) (n : Amount) : Type 0 where
  pub unpends : c.unpend_postings ≡ []
  pub releases : c.releases ≡ (id, n) ∷ []

module _ (c : BalanceChange) (id j : Uuid) (n : Amount) (t : Tally) (r : ReleasesOne c id n) where
  abbrev booked : Tally
  booked = book_all j c.status c.add_postings t

  change_one : change j c t ≡ (then_on (id == j) (free (size n)) booked >=> λ v. some v)
  unfolding change unbook_all free_all
  change_one = rw (r.unpends, r.releases, unbook_all, free_all) refl

  booked-held : booked.held ≡ t.held
  booked-held = book_all-held j c.status c.add_postings t

  pub freed_here :
      {u : Tally}
      → (id == j) ≡ true
      → change j c t ≡ some u
      → (size n ≤ t.held) × (u.held ≡ t.held - size n)
  freed_here {u} e h = elim (Option-cases (free (size n) booked)) [
    | inl k ↦ (let no : none ≡ some u = sym (change_one ∙ rw (e, k) refl) ∙ h in absurd (cc))
    | inr (v, k) ↦
        let same : v ≡ u = some_unique refl (sym (change_one ∙ rw (e, k) refl) ∙ h) in
        let (within, left) = freed (size n) booked v k in
        (
          subst (λ m. size n ≤ m) booked-held within,
          ap (λ x. x.held) (sym same) ∙ left ∙ ap (λ m. m - size n) booked-held,
        )
  ]

  pub freed_away : {u : Tally} → (id == j) ≡ false → change j c t ≡ some u → u.held ≡ t.held
  freed_away {u} e h =
      let same : booked ≡ u = some_unique refl (sym (change_one ∙ rw e refl) ∙ h) in
      ap (λ x. x.held) (sym same) ∙ booked-held
