-- ===== src/Ledger/Seal/Sealing.antt =====
-- The rows that `seal` of internal/modules/ledger/seal.go appends are ones that `verifyChain` accepts.
use astrum.Prelude.{
  ℕ, suc, ◌-◌, ◌≤◌, ◌≡◌, refl, sym, ap, ◌∙◌, subst, arith, true, ◌==◌, ==_iff, some, List, [], ◌∷◌,
  ◌++◌,
}
use astrum.Prelude.Eq.{Text, text_eq, =?_refl}
use astrum.Ledger.State.Entries.{All}
use astrum.Ledger.Seal.{Sealed}
use astrum.Ledger.Seal.Walk.{
  SealRow, ChainHead, Issue, link, entry_hash_v3, sealed_hash, sealed_by_id, content_issues,
  seal_row, seal_all, verify_from, verify_chain, zero_bytes,
}
use astrum.Ledger.Seal.Chain.{verify_from-Verifies}

-- The database answers each of the transactions.
abbrev pub AreStored : List Sealed → List Sealed → Type 0
AreStored db ss = All (λ (s : Sealed). sealed_by_id s.id db ≡ some s) ss

module _ (mac sha : Text → Text) (db : List Sealed) where
  -- a row without issues leaves what comes of the rows behind it
  clean :
      (next : ℕ) (prev : Text) (p : SealRow) (ps : List SealRow) (s : Sealed)
      → p.seq ≡ next
      → sealed_by_id p.transaction_id db ≡ some s
      → sealed_hash mac sha s p.encoding ≡ p.entry_hash
      → link mac sha prev p.seq p.entry_hash ≡ p.chain_hash
      → verify_from mac sha db next prev (p ∷ ps)
        ≡ verify_from mac sha db (suc p.seq) p.chain_hash ps
  unfolding verify_from content_issues
  clean next prev p ps s e f h l =
      let numbered : (p.seq == next) ≡ true = (==_iff p.seq next).1 e in
      rw (numbered, f, h, =?_refl p.entry_hash, l, =?_refl p.chain_hash) refl

  verify_from-append :
      (next : ℕ) (prev : Text) (ps qs : List SealRow) (head : ChainHead)
      → 1 ≤ next
      → verify_from mac sha db next prev ps ≡ ([], head)
      → verify_from mac sha db next prev (ps ++ qs)
        ≡ verify_from mac sha db (suc head.seq) head.hash qs
  unfolding verify_from
  verify_from-append next prev [] qs head b e =
      let same : record { seq = next - 1; hash = prev } ≡ head =
        ap (λ (x : List Issue × ChainHead). x.1) e in
      let number : next ≡ suc (next - 1) = omega arith in
      subst
        (λ (h : ChainHead).
          verify_from mac sha db next prev qs ≡ verify_from mac sha db (suc h.seq) h.hash qs)
        same (ap (λ n. verify_from mac sha db n prev qs) number)
  verify_from-append next prev (p ∷ ps) qs head b e =
      let v =
        verify_from-Verifies mac sha db next prev p ps
          (ap (λ (x : List Issue × ChainHead). x.0) e) in
      let e' = sym (clean next prev p ps v.content v.seq v.found v.hashed v.linked) ∙ e in
      clean next prev p (ps ++ qs) v.content v.seq v.found v.hashed v.linked
      ∙ verify_from-append (suc p.seq) p.chain_hash ps qs head (omega arith) e'

  at_end : (head : ChainHead) → verify_from mac sha db (suc head.seq) head.hash [] ≡ ([], head)
  unfolding verify_from
  at_end head =
      let number : suc head.seq - 1 ≡ head.seq = omega arith in
      ap (λ (n : ℕ). ([], record head { seq = n })) number

  seal_all-verify_from :
      (head : ChainHead) (ss : List Sealed)
      → AreStored db ss
      → verify_from mac sha db (suc head.seq) head.hash (seal_all mac sha head ss).0
        ≡ ([], (seal_all mac sha head ss).1)
  unfolding seal_all seal_row
  seal_all-verify_from head [] k = at_end head
  seal_all-verify_from head (s ∷ ss) k =
      let row = seal_row mac sha head s in
      clean (suc head.seq) head.hash row _ s refl k.0 (hashed s) refl
      ∙ seal_all-verify_from (record { seq = row.seq; hash = row.chain_hash }) ss k.1
    where
      hashed : (t : Sealed) → sealed_hash mac sha t (some 3) ≡ entry_hash_v3 mac sha t
      hashed t = unfold sealed_hash in refl

  -- Sealing transactions that the database answers after a chain that verifies without issues makes a
  -- chain that verifies without issues, with the head that the sealing answers.
  pub verify_chain-seal_all :
      (rows : List SealRow) (head : ChainHead) (ss : List Sealed)
      → AreStored db ss
      → verify_chain mac sha db rows ≡ ([], head)
      → verify_chain mac sha db (rows ++ (seal_all mac sha head ss).0)
        ≡ ([], (seal_all mac sha head ss).1)
  unfolding verify_chain
  verify_chain-seal_all rows head ss k h =
      verify_from-append 1 (zero_bytes 32) rows (seal_all mac sha head ss).0 head (omega arith) h
      ∙ seal_all-verify_from head ss k
