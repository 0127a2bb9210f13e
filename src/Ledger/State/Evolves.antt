-- ===== src/Ledger/State/Evolves.antt =====
-- How the staged accounts evolve: every account by a function on its tally.
use astrum.Prelude.{
  ◌≡◌, refl, ◌==◌, Option, some, ◌∙◌, sym, subst, ap, Bool-cases, inl, inr, ==_iff, some_unique,
}
use astrum.Ledger.Types.{Uuid}
use astrum.Ledger.Account.{AccountState}
use astrum.Ledger.Account.Sound.{IsSound}
use astrum.Ledger.State.{StagedAccounts}
use astrum.Ledger.State.Staged.{current}
use astrum.Ledger.State.Tally.{Tally, tally, then_on, ◌>=>◌}
use astrum.Ledger.State.Steps.{SameTerms, SameTerms-refl, SameTerms-trans, AllSound, Changes}

-- What an account `a` has become: `b`, on the same terms, by `f` on its tally.
pub record Becomes (f : Tally → Option Tally) (a b : AccountState) : Type 0 where
  pub terms : SameTerms a b
  pub tallied : f (tally a) ≡ some (tally b)

pub record Evolves (f : Uuid → Tally → Option Tally) (st st' : StagedAccounts) : Type 0 where
  pub base : st'.base ≡ st.base
  pub sound : AllSound st → AllSound st'
  pub each :
      (j : Uuid) (a : AccountState)
      → current j st ≡ some a
      → (b : AccountState) × (current j st' ≡ some b) × Becomes (f j) a b

pub Evolves-refl : (st : StagedAccounts) → Evolves (λ j t. some t) st st
Evolves-refl st = record {
  base = refl;
  sound = λ s. s;
  each = λ j a e. (a, e, record { terms = SameTerms-refl a; tallied = refl });
}

Becomes-trans :
    {f g : Tally → Option Tally} {a b c : AccountState}
    → Becomes f a b
    → Becomes g b c
    → Becomes (λ t. f t >=> g) a c
Becomes-trans {f} {g} p q = record {
  terms = SameTerms-trans p.terms q.terms;
  tallied = ap (λ o. o >=> g) p.tallied ∙ q.tallied;
}

pub Evolves-trans :
    {f g : Uuid → Tally → Option Tally} {st st' st'' : StagedAccounts}
    → Evolves f st st'
    → Evolves g st' st''
    → Evolves (λ j t. f j t >=> g j) st st''
Evolves-trans p q = record {
  base = q.base ∙ p.base;
  sound = λ s. q.sound (p.sound s);
  each = λ j a e.
      let (b, eb, pb) = p.each j a e in
      let (c, ec, qc) = q.each j b eb in (c, ec, Becomes-trans pb qc);
}

-- A change of one account.
pub Evolves-of-Changes :
    {id : Uuid} {st st' : StagedAccounts} {a b : AccountState} (f : Tally → Option Tally)
    → Changes id st st' a b
    → f (tally a) ≡ some (tally b)
    → Evolves (λ j. then_on (id == j) f) st st'
Evolves-of-Changes {id} {st} {st'} {a} {b} f c e = record {
  base = c.base;
  sound = λ s j x ex. elim (Bool-cases (id == j)) [
    | inl here ↦ subst IsSound (some_unique (c.written j ∙ rw here refl) ex) c.sound
    | inr away ↦ s j x (sym (c.written j ∙ rw away refl) ∙ ex)
  ];
  each = λ j x ex. elim (Bool-cases (id == j)) [
    | inl here ↦
        let q : a ≡ x = some_unique c.found (ap (λ k. current k st) ((==_iff id j).0 here) ∙ ex) in
        (
          b,
          c.written j ∙ rw here refl,
          subst (λ y. Becomes (then_on (id == j) f) y b) q
              (record { terms = c.terms; tallied = rw here e }),
        )
    | inr away ↦
        (x, c.written j ∙ rw away ex, record { terms = SameTerms-refl x; tallied = rw away refl })
  ];
}

-- The same, by a function that has the same values.
pub Evolves-eq :
    {f g : Uuid → Tally → Option Tally} {st st' : StagedAccounts}
    → ((j : Uuid) (t : Tally) → f j t ≡ g j t)
    → Evolves f st st'
    → Evolves g st st'
Evolves-eq h p = record {
  base = p.base;
  sound = p.sound;
  each = λ j a e.
      let (b, eb, pb) = p.each j a e in
      (b, eb, record { terms = pb.terms; tallied = sym (h j (tally a)) ∙ pb.tallied });
}
