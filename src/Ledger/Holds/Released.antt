-- ===== src/Ledger/Holds/Released.antt =====
-- The accounts after several holds were released at once, as `expireHolds` of
-- internal/modules/ledger/holds.go does.
pub mod Written
use astrum.Prelude.{
  ℕ, suc, ◌≤◌, ◌<◌, ◌≡◌, refl, sym, ap, ◌∙◌, subst, ◌==◌, ◌+◌, ◌%◌, length, none, some, List, [],
  ◌∷◌, Bool-cases, inl, inr, ==_iff, some_unique, if◌then◌else◌, arith, ◌⊎◌,
}
use astrum.Prelude.Eq.{nat_eq}
use astrum.Prelude.Map.{lookup, insert, copy, lookup-insert}
use astrum.Result.{ok, >>=-elim, ok_unique, not_found}
use astrum.Money.Words.{word}
use astrum.Money.Amount.{Amount}
use astrum.Money.Amount.Totals.{size, IsTotal}
use astrum.Ledger.Types.{Uuid}
use astrum.Ledger.Account.{AccountState}
use astrum.Ledger.Account.Sound.{IsSound}
use astrum.Ledger.State.{
  Accounts, release, release_amount, commit, check_all_funds, bump, bump_all, or_err,
}
use astrum.Ledger.State.Commit.{or_err-eq-ok}
use astrum.Ledger.State.Refines.{AreSound}
use astrum.Ledger.Store.{Hold}
use astrum.Ledger.Holds.{release_holds}
use astrum.Ledger.Holds.Kept.{EachTotal, WellKeyed, WellKeyed-id, WellKeyed-insert}
use astrum.Ledger.Holds.Moves.Both.{release_amount-IsTotal}

-- untouched, or up to `n` versions further
abbrev Moved : ℕ → AccountState → AccountState → Type 0
Moved n a b = (b ≡ a) ⊎ ((k : ℕ) × (0 < k) × (k ≤ n) × (b.version ≡ (a.version + k) % word))

-- `n` releases of `d` in all have made `b` of the account `a`.
pub record Drift (n d : ℕ) (a b : AccountState) : Type 0 where
  pub sound : IsSound b
  pub id : b.id ≡ a.id
  pub held : size b.held + d ≡ size a.held
  pub original : b.original_version ≡ a.original_version
  pub moved : Moved n a b

pub record Drifts (n : ℕ) (d : Uuid → ℕ) (m m' : Accounts) : Type 0 where
  pub keyed : WellKeyed m'
  pub each :
      (j : Uuid) (b : AccountState)
      → lookup j m' ≡ some b
      → (a : AccountState) × (lookup j m ≡ some a) × Drift n (d j) a b
  pub all : (j : Uuid) → lookup j m' ≡ none → lookup j m ≡ none

pub Drifts-refl : (m : Accounts) → WellKeyed m → AreSound m → Drifts 0 (λ j. 0) m m
Drifts-refl m k s = record {
  keyed = k;
  each = λ j b e. (
    b,
    e,
    record { sound = s j b e; id = refl; held = omega arith; original = refl; moved = inl refl },
  );
  all = λ j e. e;
}

-- the release is an insertion of the account
release-insert :
    (id : Uuid) (amount : Amount) (m : Accounts) {m' : Accounts}
    → release id amount m ≡ ok m'
    → (a : AccountState) × (x : Amount) × (lookup id m ≡ some a)
      × (release_amount a.held amount ≡ ok x)
      × (m' ≡ insert id (bump (record a { held = x })) m)
unfolding release commit bump_all copy
release-insert id amount m h = >>=-elim (or_err (lookup id m) not_found) _ h λ a e1 h1.
    >>=-elim (release_amount a.held amount) _ h1 λ x e2 h2.
      >>=-elim (check_all_funds m ((id, record a { held = x }) ∷ [])) _ h2
        λ u e3 h3. (a, x, or_err-eq-ok not_found (lookup id m) e1, e2, sym (ok_unique refl h3))

step-Moved :
    (n : ℕ) (a b : AccountState) (x : Amount)
    → Moved n a b
    → Moved (suc n) a (bump (record b { held = x }))
step-Moved n a b x (inl e) = inr (1, omega arith, omega arith, ap (λ z. (z.version + 1) % word) e)
step-Moved n a b x (inr (k, p, q, e)) =
    inr (suc k, omega arith, omega arith, ap (λ z. (z + 1) % word) e ∙ omega arith)

later-Moved : (n : ℕ) (a b : AccountState) → Moved n a b → Moved (suc n) a b
later-Moved n a b (inl e) = inl e
later-Moved n a b (inr (k, p, q, e)) = inr (k, p, omega arith, e)

abbrev pub freed_by : Uuid → Hold → ℕ
freed_by j h = if h.account_id == j then size h.amount else 0

unfoldable pub freed_on : Uuid → List Hold → ℕ
freed_on j [] = 0
freed_on j (h ∷ hs) = freed_by j h + freed_on j hs

release-Drifts :
    (n : ℕ) (d : Uuid → ℕ) (m m1 : Accounts) (h : Hold) {m2 : Accounts}
    → IsTotal h.amount
    → Drifts n d m m1
    → release h.account_id h.amount m1 ≡ ok m2
    → Drifts (suc n) (λ j. d j + freed_by j h) m m2
release-Drifts n d m m1 h {m2} t k e =
    let (b, x, eb, ex, em) = release-insert h.account_id h.amount m1 e in
    let (a, ea, drift) = k.each h.account_id b eb in
    let (total, left, within) = release_amount-IsTotal b.held h.amount drift.sound.held t ex in
    let b' = bump (record b { held = x }) in
    let row : (j : Uuid) → lookup j m2 ≡ (if h.account_id == j then some b' else lookup j m1) =
      λ j. ap (lookup j) em ∙ lookup-insert j h.account_id b' m1 in
    let moved : Drift (suc n) (d h.account_id + size h.amount) a b' = record {
      sound = record {
        posted_debits = drift.sound.posted_debits;
        posted_credits = drift.sound.posted_credits;
        pending_debits = drift.sound.pending_debits;
        pending_credits = drift.sound.pending_credits;
        held = total;
        overdraft_limit = drift.sound.overdraft_limit;
      };
      id = drift.id;
      held = (let before = drift.held in omega (arith, before, left, within));
      original = drift.original;
      moved = step-Moved n a b x drift.moved;
    } in
    record {
      keyed =
          subst WellKeyed (sym em)
            (WellKeyed-insert h.account_id b' m1 k.keyed (WellKeyed-id h.account_id m1 k.keyed eb));
      each = λ j c ec. elim (Bool-cases (h.account_id == j)) [
        | inl w ↦
            let here : h.account_id ≡ j = (==_iff h.account_id j).0 w in
            let same : b' ≡ c = some_unique refl (sym (row j ∙ rw w refl) ∙ ec) in
            let amounts : d h.account_id + size h.amount ≡ d j + freed_by j h =
              ap (λ z. d z + size h.amount) here ∙ rw w refl in
            (
              a,
              ap (λ z. lookup z m) (sym here) ∙ ea,
              subst (Drift (suc n) (d j + freed_by j h) a) same
                  (subst (λ v. Drift (suc n) v a b') amounts moved),
            )
        | inr w ↦
            let (a2, ea2, drift2) = k.each j c (sym (row j ∙ rw w refl) ∙ ec) in
            (
              a2,
              ea2,
              record {
                sound = drift2.sound;
                id = drift2.id;
                held = (let before = drift2.held in rw w (omega (arith, before)));
                original = drift2.original;
                moved = later-Moved n a2 c drift2.moved;
              },
            )
      ];
      all = λ j ej. elim (Bool-cases (h.account_id == j)) [
        | inl w ↦ (let no : some b' ≡ none = sym (row j ∙ rw w refl) ∙ ej in absurd (cc))
        | inr w ↦ k.all j (sym (row j ∙ rw w refl) ∙ ej)
      ];
    }

pub Drifts-sums :
    {n : ℕ} {d e : Uuid → ℕ} {m m' : Accounts}
    → ((j : Uuid) → d j ≡ e j)
    → Drifts n d m m'
    → Drifts n e m m'
Drifts-sums {n} f k = record {
  keyed = k.keyed;
  each = λ j b eb.
      let (a, ea, drift) = k.each j b eb in (a, ea, subst (λ v. Drift n v a b) (f j) drift);
  all = k.all;
}

pub release_holds-Drifts :
    (hs : List Hold) (n : ℕ) (d : Uuid → ℕ) (m m1 : Accounts) {m2 : Accounts}
    → EachTotal hs
    → Drifts n d m m1
    → release_holds hs m1 ≡ ok m2
    → Drifts (n + length hs) (λ j. d j + freed_on j hs) m m2
unfolding release_holds freed_on
release_holds-Drifts [] n d m m1 {m2} t k e =
    subst (λ x. Drifts (n + 0) (λ j. d j + 0) m x) (ok_unique refl e)
      (subst (λ v. Drifts v (λ j. d j + 0) m m1) (omega arith) (Drifts-sums (λ j. omega arith) k))
release_holds-Drifts (h ∷ hs) n d m m1 {m2} t k e =
    >>=-elim (release h.account_id h.amount m1) _ e λ m3 e1 e2.
      let first = release-Drifts n d m m1 h t.0 k e1 in
      let rest = release_holds-Drifts hs (suc n) (λ j. d j + freed_by j h) m m3 t.1 first e2 in
      subst (λ v. Drifts v (λ j. d j + (freed_by j h + freed_on j hs)) m m2) (omega arith)
        (Drifts-sums (λ j. omega arith) rest)
