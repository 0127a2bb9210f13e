-- ===== src/Ledger/Seal/Preimage.antt =====
-- What `entryHashV3` of internal/modules/ledger/seal.go writes: it determines what the seal binds.
use astrum.Prelude.{
  ℕ, zero, suc, ◌^◌, ◌<◌, ◌≡◌, refl, sym, ap, ◌∙◌, arith, Option, none, some, List, [], ◌∷◌, ◌++◌,
  length,
}
use astrum.Prelude.Eq.{Text}
use astrum.Money.Amount.{Amount}
use astrum.Money.Amount.Value.{Fits}
use astrum.Ledger.State.Entries.{All}
use astrum.Ledger.Seal.{
  Sealed, SealedEntry, append_binary, write_reverses, write_entry, write_entries, preimage_v3,
}
use astrum.Ledger.Seal.Bytes.{
  big_endian, write_bytes, big_endian-split, write_bytes-split, append_assoc,
}

-- Ids have 16 bytes, amounts are of two words, and texts have a length of 32 bits.
pub record IsBoundedEntry (e : SealedEntry) : Type 0 where
  pub account_id : e.account_id < 256 ^ 16
  pub currency : length e.currency < 2 ^ 32
  pub side : length e.side < 2 ^ 32
  pub amount : Fits e.amount
  pub balance_after : Fits e.balance_after

abbrev pub BoundedId : Option ℕ → Type 0
BoundedId none = Unit
BoundedId (some id) = id < 256 ^ 16

pub record IsBounded (s : Sealed) : Type 0 where
  pub id : s.id < 256 ^ 16
  pub ledger_id : s.ledger_id < 256 ^ 16
  pub idempotency_key : length s.idempotency_key < 2 ^ 32
  pub external_id : length s.external_id < 2 ^ 32
  pub description : length s.description < 2 ^ 32
  pub metadata : length s.metadata < 2 ^ 32
  pub reverses_id : BoundedId s.reverses_id
  pub created_at : s.created_at < 256 ^ 8
  pub effective_at : s.effective_at < 256 ^ 8
  pub posted_at : s.posted_at < 256 ^ 8
  pub count : length s.entries < 256 ^ 4
  pub entries : All IsBoundedEntry s.entries

append_binary-split :
    (a b : Amount) (x y : Text)
    → Fits a
    → Fits b
    → append_binary a ++ x ≡ append_binary b ++ y
    → (a ≡ b) × (x ≡ y)
unfolding append_binary
append_binary-split a b x y f g e =
    let e' =
      sym (append_assoc (big_endian 8 a.hi) (big_endian 8 a.lo) x)
      ∙ e
      ∙ append_assoc (big_endian 8 b.hi) (big_endian 8 b.lo) y in
    let (hi, e1) =
      big_endian-split 8 a.hi b.hi _ _ (omega (arith, f.hi_word)) (omega (arith, g.hi_word)) e' in
    let (lo, e2) =
      big_endian-split 8 a.lo b.lo x y (omega (arith, f.lo_word)) (omega (arith, g.lo_word)) e1 in
    (cc, e2)

head_same : {a b : ℕ} {x y : Text} → a ∷ x ≡ b ∷ y → a ≡ b
head_same e = cc

write_reverses-split :
    (a b : Option ℕ) (x y : Text)
    → BoundedId a
    → BoundedId b
    → write_reverses a ++ x ≡ write_reverses b ++ y
    → (a ≡ b) × (x ≡ y)
unfolding write_reverses
write_reverses-split none none x y f g e = (refl, cc)
write_reverses-split none (some n) x y f g e =
    let no : zero ≡ suc zero = head_same e in absurd (omega (arith, no))
write_reverses-split (some m) none x y f g e =
    let no : suc zero ≡ zero = head_same e in absurd (omega (arith, no))
write_reverses-split (some m) (some n) x y f g e =
    let e' : big_endian 16 m ++ x ≡ big_endian 16 n ++ y = cc in
    let (same, e1) = big_endian-split 16 m n x y f g e' in (ap some same, e1)

five :
    (a b c d e x : Text) → (a ++ (b ++ (c ++ (d ++ e)))) ++ x ≡ a ++ (b ++ (c ++ (d ++ (e ++ x))))
five a b c d e x =
    append_assoc a (b ++ (c ++ (d ++ e))) x
    ∙ ap (λ t. a ++ t)
        (append_assoc b (c ++ (d ++ e)) x
          ∙ ap (λ t. b ++ t) (append_assoc c (d ++ e) x ∙ ap (λ t. c ++ t) (append_assoc d e x)))

-- the parts of an entry, and what follows
entry_parts :
    (e : SealedEntry) (x : Text)
    → write_entry e ++ x
      ≡ big_endian 16 e.account_id
        ++ (write_bytes e.currency
            ++ (write_bytes e.side
                ++ (append_binary e.amount ++ (append_binary e.balance_after ++ x))))
unfolding write_entry
entry_parts e x =
    five (big_endian 16 e.account_id) (write_bytes e.currency) (write_bytes e.side)
      (append_binary e.amount) (append_binary e.balance_after) x

write_entry-split :
    (a b : SealedEntry) (x y : Text)
    → IsBoundedEntry a
    → IsBoundedEntry b
    → write_entry a ++ x ≡ write_entry b ++ y
    → (a ≡ b) × (x ≡ y)
write_entry-split a b x y f g e =
    let e0 = sym (entry_parts a x) ∙ e ∙ entry_parts b y in
    let (account, e1) =
      big_endian-split 16 a.account_id b.account_id _ _ f.account_id g.account_id e0 in
    let (currency, e2) = write_bytes-split a.currency b.currency _ _ f.currency g.currency e1 in
    let (side, e3) = write_bytes-split a.side b.side _ _ f.side g.side e2 in
    let (amount, e4) = append_binary-split a.amount b.amount _ _ f.amount g.amount e3 in
    let (after, e5) =
      append_binary-split a.balance_after b.balance_after x y f.balance_after g.balance_after e4 in
    (cc, e5)

write_entries_unique :
    (as' bs : List SealedEntry)
    → length as' ≡ length bs
    → All IsBoundedEntry as'
    → All IsBoundedEntry bs
    → write_entries as' ≡ write_entries bs
    → as' ≡ bs
unfolding write_entries
write_entries_unique [] [] l f g e = refl
write_entries_unique [] (b ∷ bs) l f g e = absurd (omega arith)
write_entries_unique (a ∷ as') [] l f g e = absurd (omega arith)
write_entries_unique (a ∷ as') (b ∷ bs) l f g e =
    let (same, e1) = write_entry-split a b (write_entries as') (write_entries bs) f.0 g.0 e in
    let rest = write_entries_unique as' bs (omega arith) f.1 g.1 e1 in cc

-- Two contents within these bounds for which the same bytes are hashed are the same, in every part.
pub preimage_v3_unique :
    (s t : Sealed) → IsBounded s → IsBounded t → preimage_v3 s ≡ preimage_v3 t → s ≡ t
unfolding preimage_v3
preimage_v3_unique s t f g e =
    let e' : _ = drop_tag e in
    let (id, e1) = big_endian-split 16 s.id t.id _ _ f.id g.id e' in
    let (ledger, e2) = big_endian-split 16 s.ledger_id t.ledger_id _ _ f.ledger_id g.ledger_id e1 in
    let (key, e3) =
      write_bytes-split s.idempotency_key t.idempotency_key _ _ f.idempotency_key g.idempotency_key
        e2 in
    let (external, e4) =
      write_bytes-split s.external_id t.external_id _ _ f.external_id g.external_id e3 in
    let (description, e5) =
      write_bytes-split s.description t.description _ _ f.description g.description e4 in
    let (metadata, e6) = write_bytes-split s.metadata t.metadata _ _ f.metadata g.metadata e5 in
    let (reverses, e7) =
      write_reverses-split s.reverses_id t.reverses_id _ _ f.reverses_id g.reverses_id e6 in
    let (created, e8) =
      big_endian-split 8 s.created_at t.created_at _ _ f.created_at g.created_at e7 in
    let (effective, e9) =
      big_endian-split 8 s.effective_at t.effective_at _ _ f.effective_at g.effective_at e8 in
    let (posted, e10) = big_endian-split 8 s.posted_at t.posted_at _ _ f.posted_at g.posted_at e9 in
    let (count, e11) =
      big_endian-split 4 (length s.entries) (length t.entries) _ _ f.count g.count e10 in
    let entries = write_entries_unique s.entries t.entries count f.entries g.entries e11 in cc
  where
    drop_tag : {x y : Text} → 3 ∷ x ≡ 3 ∷ y → x ≡ y
    drop_tag p = cc
