-- ===== src/Ledger/Seal/Walk.antt =====
-- The chain of seals of internal/modules/ledger/seal.go: what `seal` appends, and the walk of `verifyChain`.
-- SHA-256 and the keyed HMAC are parameters.
use astrum.Prelude.{
  ℕ, zero, suc, ◌-◌, Bool, true, false, not, ◌==◌, Option, none, some, List, [], ◌∷◌, ◌++◌,
  if◌then◌else◌,
}
use astrum.Prelude.Eq.{Text, text_eq, ◌=?◌}
use astrum.Ledger.Types.{Uuid}
use astrum.Ledger.Seal.Bytes.{big_endian}
use astrum.Ledger.Seal.{Sealed, preimage_v1, preimage_v3}

-- A row of ledger_seals.
pub record SealRow : Type 0 where
  pub seq : ℕ
  pub transaction_id : Uuid
  pub entry_hash : Text
  pub chain_hash : Text
  pub encoding : Option ℕ

-- `chainHead`
pub record ChainHead : Type 0 where
  pub seq : ℕ
  pub hash : Text

unfoldable pub zero_bytes : ℕ → Text
zero_bytes zero = []
zero_bytes (suc n) = 0 ∷ zero_bytes n

-- the head of an empty chain
unfoldable pub genesis : ChainHead
unfolding zero_bytes
genesis = record { seq = 0; hash = zero_bytes 32 }

-- `byID[p.txnID]`, among the transactions that the database answers
unfoldable pub sealed_by_id : Uuid → List Sealed → Option Sealed
sealed_by_id id [] = none
sealed_by_id id (s ∷ ss) = if s.id == id then some s else sealed_by_id id ss

-- What `verifyChain` reports of a row.
pub data Issue : Type 0 where
  unexpected_seq missing altered chain_broken : ℕ → Issue

-- `mac` is HMAC under the sealer's key, and `sha` is SHA-256
module _ (mac sha : Text → Text) where
  -- `link`
  unfoldable pub link : Text → ℕ → Text → Text
  unfolding big_endian
  link prev seq entry = mac (prev ++ (big_endian 8 seq ++ entry))

  unfoldable pub entry_hash_v3 : Sealed → Text
  unfolding preimage_v3
  entry_hash_v3 s = sha (preimage_v3 s)

  -- `sealedHash`
  unfoldable pub sealed_hash : Sealed → Option ℕ → Text
  unfolding preimage_v1 entry_hash_v3
  sealed_hash s none = sha (preimage_v1 s)
  sealed_hash s (some n) = entry_hash_v3 s

  unfoldable pub seal_row : ChainHead → Sealed → SealRow
  unfolding link entry_hash_v3
  seal_row head s = record {
    seq = suc head.seq;
    transaction_id = s.id;
    entry_hash = entry_hash_v3 s;
    chain_hash = link head.hash (suc head.seq) (entry_hash_v3 s);
    encoding = some 3;
  }

  -- the loop of `seal` over the transactions in the order of their commits: the rows to insert, and the
  -- new head
  unfoldable pub seal_all : ChainHead → List Sealed → List SealRow × ChainHead
  unfolding seal_row
  seal_all head [] = ([], head)
  seal_all head (s ∷ ss) =
      let row = seal_row head s in
      let (rows, last) = seal_all (record { seq = row.seq; hash = row.chain_hash }) ss in
      (row ∷ rows, last)

  abbrev pub issue_if : Bool → Issue → List Issue
  issue_if true i = i ∷ []
  issue_if false i = []

  -- the switch over the transaction of a row
  unfoldable pub content_issues : SealRow → Option Sealed → List Issue
  unfolding sealed_hash
  content_issues p none = missing p.seq ∷ []
  content_issues p (some s) =
      issue_if (not (sealed_hash s p.encoding =? p.entry_hash)) (altered p.seq)

  -- The loop of `verifyChain` over the rows, which it reads page by page, with the hash of the row
  -- before and the number that is expected next. The query for unsealed transactions is left out.
  unfoldable pub verify_from : List Sealed → ℕ → Text → List SealRow → List Issue × ChainHead
  unfolding link sealed_by_id content_issues
  verify_from db next prev [] = ([], record { seq = next - 1; hash = prev })
  verify_from db next prev (p ∷ ps) =
      let (issues, head) = verify_from db (suc p.seq) p.chain_hash ps in
      (
        issue_if (not (p.seq == next)) (unexpected_seq next)
            ++ (content_issues p (sealed_by_id p.transaction_id db)
                ++ (issue_if (not (link prev p.seq p.entry_hash =? p.chain_hash))
                      (chain_broken p.seq)
                    ++ issues)),
        head,
      )

  unfoldable pub verify_chain : List Sealed → List SealRow → List Issue × ChainHead
  unfolding verify_from zero_bytes
  verify_chain db rows = verify_from db 1 (zero_bytes 32) rows
