-- ===== src/Ledger/Seal/Chain.antt =====
-- What a chain of internal/modules/ledger/seal.go that verifies says of the transactions.
use astrum.Prelude.{
  ℕ, suc, ◌+◌, ◌-◌, ◌≡◌, refl, sym, ap, ◌∙◌, subst, arith, inl, inr, ◌⊎◌, ◌≢◌, Bool, true, false,
  not, ◌==◌, ==_iff, Bool-cases, Option, none, some, some_unique, List, [], ◌∷◌, ◌++◌, length,
  length-append,
}
use astrum.Prelude.Eq.{Text, text_eq, text_beq_iff, ◌=?◌}
use astrum.Ledger.Types.{Uuid}
use astrum.Ledger.State.Entries.{All}
use astrum.Ledger.Seal.{Sealed, preimage_v3}
use astrum.Ledger.Seal.Walk.{
  SealRow, ChainHead, Issue, unexpected_seq, altered, chain_broken, link, entry_hash_v3,
  sealed_hash, sealed_by_id, issue_if, content_issues, verify_from, verify_chain, zero_bytes,
}
use astrum.Ledger.Seal.Bytes.{big_endian, big_endian-length, split, split_end}
use astrum.Ledger.Seal.Preimage.{IsBounded, preimage_v3_unique}

-- What the rows say of the transactions: the contents that they stand for, in order.
unfoldable pub contents : List Sealed → List SealRow → List (Option Sealed)
unfolding sealed_by_id
contents db [] = []
contents db (p ∷ ps) = sealed_by_id p.transaction_id db ∷ contents db ps

-- A row in the encoding that `seal` writes.
abbrev pub IsV3 : SealRow → Type 0
IsV3 p = p.encoding ≡ some 3

nothing_before {ℓ} : {A : Type ℓ} (xs ys : List A) → xs ++ ys ≡ [] → (xs ≡ []) × (ys ≡ [])
nothing_before [] ys e = (refl, e)
nothing_before (x ∷ xs) ys e = absurd (cc)

sealed_by_id-IsBounded :
    (id : Uuid) (db : List Sealed) {s : Sealed}
    → All IsBounded db
    → sealed_by_id id db ≡ some s
    → IsBounded s
unfolding sealed_by_id
sealed_by_id-IsBounded id [] b e = absurd (cc)
sealed_by_id-IsBounded id (t ∷ ts) b e = elim (Bool-cases (t.id == id)) [
  | inl f ↦ subst IsBounded (some_unique refl (rw f at e)) b.0
  | inr f ↦ sealed_by_id-IsBounded id ts b.1 (rw f at e)
]

-- Two different texts that the function does not tell apart.
abbrev pub Collision : (Text → Text) → Type 0
Collision f = (x : Text) × (y : Text) × (x ≢ y) × (f x ≡ f y)

same_or_Collision : (f : Text → Text) (x y : Text) → f x ≡ f y → (x ≡ y) ⊎ Collision f
same_or_Collision f x y h = elim (Bool-cases (x =? y)) [
  | inl e ↦ inl ((text_beq_iff x y).0 e)
  | inr e ↦ inr (x, y, λ p. let no : (x =? y) ≡ true = (text_beq_iff x y).1 p in absurd (cc), h)
]

module _ (mac sha : Text → Text) where
  no_issue : (c : Bool) (i : Issue) → issue_if mac sha (not c) i ≡ [] → c ≡ true
  no_issue true i e = refl
  no_issue false i e = absurd (cc)

  -- A row without issues, after the hash `prev`, and what comes of the rows behind it.
  pub record Verifies (db : List Sealed) (next : ℕ) (prev : Text) (p : SealRow) (ps : List SealRow)
      : Type 0 where
    pub seq : p.seq ≡ next
    pub content : Sealed
    pub found : sealed_by_id p.transaction_id db ≡ some content
    pub hashed : sealed_hash mac sha content p.encoding ≡ p.entry_hash
    pub linked : link mac sha prev p.seq p.entry_hash ≡ p.chain_hash
    pub rest : (verify_from mac sha db (suc p.seq) p.chain_hash ps).0 ≡ []

  row_content :
      (p : SealRow) (o : Option Sealed)
      → content_issues mac sha p o ≡ []
      → (s : Sealed) × (o ≡ some s) × (sealed_hash mac sha s p.encoding ≡ p.entry_hash)
  unfolding content_issues
  row_content p none e = absurd (cc)
  row_content p (some s) e = (
    s,
    refl,
    (text_beq_iff (sealed_hash mac sha s p.encoding) p.entry_hash).0
        (no_issue (sealed_hash mac sha s p.encoding =? p.entry_hash) (altered p.seq) e),
  )

  pub verify_from-Verifies :
      (db : List Sealed) (next : ℕ) (prev : Text) (p : SealRow) (ps : List SealRow)
      → (verify_from mac sha db next prev (p ∷ ps)).0 ≡ []
      → Verifies db next prev p ps
  unfolding verify_from
  verify_from-Verifies db next prev p ps e =
      let (numbered, e1) =
        nothing_before (issue_if mac sha (not (p.seq == next)) (unexpected_seq next)) _ e in
      let (known, e2) =
        nothing_before (content_issues mac sha p (sealed_by_id p.transaction_id db)) _ e1 in
      let (chained, e3) =
        nothing_before
          (issue_if mac sha (not (link mac sha prev p.seq p.entry_hash =? p.chain_hash))
            (chain_broken p.seq))
          _ e2 in
      let (content, found, hashed) = row_content p (sealed_by_id p.transaction_id db) known in
      record {
        seq = (==_iff p.seq next).0 (no_issue (p.seq == next) (unexpected_seq next) numbered);
        content = content;
        found = found;
        hashed = hashed;
        linked = (text_beq_iff (link mac sha prev p.seq p.entry_hash) p.chain_hash).0 (
            no_issue (link mac sha prev p.seq p.entry_hash =? p.chain_hash) (chain_broken p.seq)
              chained);
        rest = e3;
      }

  -- the numbers of rows without issues follow each other
  verify_from-seq :
      (db : List Sealed) (next : ℕ) (prev : Text) (ps : List SealRow)
      → (verify_from mac sha db next prev ps).0 ≡ []
      → (verify_from mac sha db next prev ps).1.seq ≡ next + length ps - 1
  unfolding verify_from
  verify_from-seq db next prev [] e = omega arith
  verify_from-seq db next prev (p ∷ ps) e =
      let v = verify_from-Verifies db next prev p ps e in
      omega (arith, v.seq, verify_from-seq db (suc p.seq) p.chain_hash ps v.rest)

  link_unique :
      (p q : Text) (m n : ℕ) (d e : Text)
      → length d ≡ length e
      → link mac sha p m d ≡ link mac sha q n e
      → ((p ≡ q) × (d ≡ e)) ⊎ Collision mac
  unfolding link
  link_unique p q m n d e l h =
      let numbers = big_endian-length 8 m ∙ sym (big_endian-length 8 n) in
      let ends : length (big_endian 8 m ++ d) ≡ length (big_endian 8 n ++ e) =
        omega
          (arith, l, numbers, length-append (big_endian 8 m) d, length-append (big_endian 8 n) e) in
      elim (same_or_Collision mac _ _ h) [
        | inr c ↦ inr c
        | inl texts ↦
            let (same, h1) = split_end p q _ _ ends texts in
            let (_, h2) = split (big_endian 8 m) (big_endian 8 n) d e numbers h1 in inl (same, h2)
      ]

  -- an entry hash of a row in the encoding of `seal`
  hashed_v3 :
      (s : Sealed) (p : SealRow)
      → IsV3 p
      → sealed_hash mac sha s p.encoding ≡ p.entry_hash
      → sha (preimage_v3 s) ≡ p.entry_hash
  unfolding sealed_hash entry_hash_v3
  hashed_v3 s p v h = rw v at h

  module _ (sha_length : (x : Text) → length (sha x) ≡ 32) where
    -- Two rows that verify, with one hash of the chain: the hashes before them and the contents are
    -- the same, or there is a collision.
    rows_unique :
        (db db' : List Sealed) (n m : ℕ) (prev prev' : Text) (p q : SealRow) (ps qs : List SealRow)
        → All IsBounded db
        → All IsBounded db'
        → IsV3 p
        → IsV3 q
        → Verifies db n prev p ps
        → Verifies db' m prev' q qs
        → p.chain_hash ≡ q.chain_hash
        → ((prev ≡ prev') × (sealed_by_id p.transaction_id db ≡ sealed_by_id q.transaction_id db'))
          ⊎ (Collision mac ⊎ Collision sha)
    rows_unique db db' n m prev prev' p q ps qs b b' v v' r r' chained =
        let hash = hashed_v3 r.content p v r.hashed in
        let hash' = hashed_v3 r'.content q v' r'.hashed in
        let lengths : length p.entry_hash ≡ length q.entry_hash =
          sym (ap length hash) ∙ sha_length _ ∙ sym (sha_length _) ∙ ap length hash' in
        elim (link_unique prev prev' p.seq q.seq p.entry_hash q.entry_hash lengths
          (r.linked ∙ chained ∙ sym r'.linked)) [
            | inr c ↦ inr (inl c)
            | inl both ↦
                elim (same_or_Collision sha (preimage_v3 r.content) (preimage_v3 r'.content)
                  (hash ∙ both.1 ∙ sym hash')) [
                    | inr c ↦ inr (inr c)
                    | inl texts ↦
                        let same =
                          preimage_v3_unique r.content r'.content
                            (sealed_by_id-IsBounded p.transaction_id db b r.found)
                            (sealed_by_id-IsBounded q.transaction_id db' b' r'.found) texts in
                        inl (both.0, r.found ∙ ap some same ∙ sym r'.found)
                  ]
          ]

    verify_from_unique :
        (db db' : List Sealed) (n m : ℕ) (prev prev' : Text) (ps qs : List SealRow)
        → All IsBounded db
        → All IsBounded db'
        → All IsV3 ps
        → All IsV3 qs
        → length ps ≡ length qs
        → (verify_from mac sha db n prev ps).0 ≡ []
        → (verify_from mac sha db' m prev' qs).0 ≡ []
        → (verify_from mac sha db n prev ps).1.hash ≡ (verify_from mac sha db' m prev' qs).1.hash
        → ((prev ≡ prev') × (contents db ps ≡ contents db' qs)) ⊎ (Collision mac ⊎ Collision sha)
    unfolding verify_from contents
    verify_from_unique db db' n m prev prev' [] [] b b' v v' l e e' h = inl (h, refl)
    verify_from_unique db db' n m prev prev' [] (q ∷ qs) b b' v v' l e e' h = absurd (omega arith)
    verify_from_unique db db' n m prev prev' (p ∷ ps) [] b b' v v' l e e' h = absurd (omega arith)
    verify_from_unique db db' n m prev prev' (p ∷ ps) (q ∷ qs) b b' v v' l e e' h =
        let r = verify_from-Verifies db n prev p ps e in
        let r' = verify_from-Verifies db' m prev' q qs e' in
        elim (verify_from_unique db db' (suc p.seq) (suc q.seq) p.chain_hash q.chain_hash ps qs b b'
          v.1 v'.1 (omega arith) r.rest r'.rest h) [
            | inr c ↦ inr c
            | inl later ↦
                elim (rows_unique db db' n m prev prev' p q ps qs b b' v.0 v'.0 r r' later.0) [
                  | inr c ↦ inr c
                  | inl first ↦ inl (first.0, rw (first.1, later.1) refl)
                ]
          ]

    pub verify_chain_unique :
        (db db' : List Sealed) (ps qs : List SealRow) (head : ChainHead)
        → All IsBounded db
        → All IsBounded db'
        → All IsV3 ps
        → All IsV3 qs
        → verify_chain mac sha db ps ≡ ([], head)
        → verify_chain mac sha db' qs ≡ ([], head)
        → (contents db ps ≡ contents db' qs) ⊎ (Collision mac ⊎ Collision sha)
    unfolding verify_chain
    verify_chain_unique db db' ps qs head b b' v v' h h' =
        let e = ap (λ (x : List Issue × ChainHead). x.0) h in
        let e' = ap (λ (x : List Issue × ChainHead). x.0) h' in
        let heads = ap (λ (x : List Issue × ChainHead). x.1) (h ∙ sym h') in
        let count = verify_from-seq db 1 (zero_bytes 32) ps e in
        let count' = verify_from-seq db' 1 (zero_bytes 32) qs e' in
        let seqs = ap (λ (x : ChainHead). x.seq) heads in
        elim (verify_from_unique db db' 1 1 (zero_bytes 32) (zero_bytes 32) ps qs b b' v v'
          (omega (arith, count, count', seqs)) e e' (ap (λ (x : ChainHead). x.hash) heads)) [
            | inr c ↦ inr c
            | inl same ↦ inl same.1
          ]
