-- ===== src/Replay/Transcript.antt =====
-- replay-engine/src/transcript.rs: the transcript of a round. Texts that no operation reads are left
-- out; an address is a number.
use xelma_blockchain.Prelude.{
  ℕ, suc, ◌%◌, Bool, true, false, not, Option, List, [], ◌∷◌, length, leb, ◌==◌, if◌then◌else◌,
}
use xelma_blockchain.Int.{ℤ}
use xelma_blockchain.Machine.{u32_mod}
use xelma_blockchain.Errors.{ContractError}

pub data TranscriptMode : Type 0 where
  up_down precision : TranscriptMode

pub data TerminalAction : Type 0 where
  resolve cancel void fallback_refund : TerminalAction

pub data ArchiveStatus : Type 0 where
  resolved cancelled fallback voided : ArchiveStatus

pub data OutcomeKind : Type 0 where
  win loss refund void : OutcomeKind

pub record OracleTranscript : Type 0 where
  pub price : ℕ
  pub timestamp : ℕ
  pub round_id : ℕ
  pub nonce : ℕ
  pub confidence : Option ℕ

pub record CommitRevealRecord : Type 0 where
  pub revealed : Bool
  pub predicted_price : ℕ

pub record TranscriptParticipant : Type 0 where
  pub index : ℕ
  pub address : Option ℕ
  pub amount : ℤ
  pub side_up : Option Bool
  pub commit_reveal : CommitRevealRecord

pub record ExpectedPayout : Type 0 where
  pub index : ℕ
  pub payout : ℤ
  pub outcome : OutcomeKind

pub record ExpectedOutcome : Type 0 where
  pub archive_status : ArchiveStatus
  pub total_fee : ℤ
  pub payouts : List ExpectedPayout

pub record RoundTranscript : Type 0 where
  pub schema_version : ℕ
  pub round_id : ℕ
  pub mode : TranscriptMode
  pub terminal : TerminalAction
  pub price_start : ℕ
  pub final_price : ℕ
  pub pool_up : ℤ
  pub pool_down : ℤ
  pub fee_bps : Option ℕ
  pub min_participants : Option ℕ
  pub participant_count : ℕ
  pub oracle : OracleTranscript
  pub participants : List TranscriptParticipant
  pub expected : ExpectedOutcome

pub data TranscriptError : Type 0 where
  unsupported_schema : ℕ → TranscriptError
  empty_participants : TranscriptError
  participant_order : ℕ → ℕ → TranscriptError
  participant_count_mismatch : ℕ → ℕ → TranscriptError

pub data ReplayError : Type 0 where
  transcript : TranscriptError → ReplayError
  settlement : ContractError → ReplayError
  oracle_round_mismatch : ℕ → ℕ → ReplayError

-- `?` on an error of the transcript or of the settlement wraps it; a trap stays one.
pub data Replayed {ℓ} (A : Type ℓ) : Type ℓ where
  done : A → Replayed A
  failed : ReplayError → Replayed A
  trapped : Replayed A

infixl 5 ◌>>=◌ ◌>>◌
abbrev pub ◌>>=◌ {ℓ κ} : {A : Type ℓ} {B : Type κ} → Replayed A → (A → Replayed B) → Replayed B
done a >>= f = f a
failed e >>= f = failed e
trapped >>= f = trapped

abbrev pub ◌>>◌ {ℓ} : {B : Type ℓ} → Replayed (Unit {0}) → Replayed B → Replayed B
m >> k = m >>= λ _. k

abbrev pub transcript_schema_version : ℕ
transcript_schema_version = 1

-- The loop over the rows, from an index on.
unfoldable pub order_check : ℕ → List TranscriptParticipant → Replayed (Unit {0})
order_check i [] = done tt
order_check i (p ∷ ps) =
    if not (p.index == i)
    then failed (transcript (participant_order i p.index))
    else order_check (suc i) ps

abbrev pub is_empty {ℓ} : {A : Type ℓ} → List A → Bool
is_empty [] = true
is_empty (x ∷ xs) = false

unfoldable pub validate_schema : RoundTranscript → Replayed (Unit {0})
unfolding order_check
validate_schema t =
    if not (t.schema_version == transcript_schema_version)
    then failed (transcript (unsupported_schema t.schema_version))
    else if is_empty t.participants
    then failed (transcript empty_participants)
    else order_check 0 t.participants
      >> (if not (t.participant_count == length t.participants)
          then failed (
              transcript
                (participant_count_mismatch t.participant_count (length t.participants % u32_mod)))
          else done tt)

-- `sort_by_key`, which is stable: a row goes before the later rows of the same index.
unfoldable pub insert_by_index :
    TranscriptParticipant → List TranscriptParticipant → List TranscriptParticipant
insert_by_index p [] = p ∷ []
insert_by_index p (q ∷ qs) =
    let rest = insert_by_index p qs in if leb p.index q.index then p ∷ q ∷ qs else q ∷ rest

unfoldable pub sort_by_index : List TranscriptParticipant → List TranscriptParticipant
sort_by_index [] = []
sort_by_index (p ∷ ps) = insert_by_index p (sort_by_index ps)

unfoldable pub canonicalize_participants : RoundTranscript → RoundTranscript
canonicalize_participants t =
    let sorted = sort_by_index t.participants in
    record t { participants = sorted; participant_count = length sorted % u32_mod }
