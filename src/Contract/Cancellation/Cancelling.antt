-- ===== src/Contract/Cancellation/Cancelling.antt =====
-- `cancel_round` of contracts/src/settlement.rs as a whole.
use xelma_blockchain.Prelude.{
  ℕ, ◌<◌, ◌≡◌, refl, sym, ap, subst, ◌∙◌, true, some, none, List, All, sum_by, arith,
}
use xelma_blockchain.Int.{ℤ, pos, pos_part, ◌+ℤ◌, ◌≤ℤ◌}
use xelma_blockchain.Machine.{i128_half}
use xelma_blockchain.Errors.{ok, Ensures, Ensures-ok, Ensures-bind, Ensures-ok_or}
use xelma_blockchain.SettlementMath.Pot.Weighted.{total, IsStake}
use xelma_blockchain.Contract.State.{unwrap_or, put-same, Env, Storage, Round}
use xelma_blockchain.Contract.Admin.{_require_supported_schema, admin_auth}
use xelma_blockchain.Contract.Balances.{balance, pending_of}
use xelma_blockchain.Contract.Betting.{participants_of}
use xelma_blockchain.Contract.Fees.{get_insurance_fund_balance}
use xelma_blockchain.Contract.Fees.Collection.{treasury_amount, protocol_funds}
use xelma_blockchain.Contract.Insurance.Coverage.{is_coverage_eligible}
use xelma_blockchain.Contract.Archive.{_archive_round, clear_round_storage}
use xelma_blockchain.Contract.Disputes.Voiding.{stakes_due, Returned}
use xelma_blockchain.Contract.Cancellation.{
  cancel_participants, cover_round, close_cancelled, cancel_active, cancel_round,
}
use xelma_blockchain.Contract.Cancellation.Stakes.{
  raw_stake, cancel_participants-Returned, cancel_participants-Noted,
}
use xelma_blockchain.Contract.Cancellation.Fund.{SameFund, cancel_participants-SameFund}
use xelma_blockchain.Contract.Cancellation.Covering.{paid_to}
use xelma_blockchain.Contract.Cancellation.Solvency.{Covered, cover_round-Covered}

-- The stakes of a round are not negative, and their sum is an `i128`.
abbrev pub AreStakes : Round → Storage → Type 0
AreStakes round s =
    let raw = raw_stake round.mode round.round_id s.rounds in
    let users = participants_of s round.round_id in
    All (λ u. IsStake (raw u)) users × (sum_by (λ u. pos_part (raw u)) users < i128_half)

pub record Cancelled (round : Round) (s s' : Storage) : Type 0 where
  pub coverage : List ℤ
  pub drawn : ℤ
  pub pays :
      (v : ℕ)
      → pending_of s' v
        ≡ pending_of s v
          +ℤ stakes_due round.mode round.round_id s.rounds (participants_of s round.round_id) v
          +ℤ paid_to (participants_of s round.round_id) coverage v
  pub solvent : total coverage ≤ℤ drawn
  pub affordable : pos 0 ≤ℤ get_insurance_fund_balance s → drawn ≤ℤ get_insurance_fund_balance s
  pub draws : protocol_funds s ≡ protocol_funds s' +ℤ drawn
  pub keeps_balances : (v : ℕ) → balance s' v ≡ balance s v
  pub drops_active : s'.rounds.active_round ≡ none
  pub marks : s'.archives.cancelled_round round.round_id ≡ some true

closed-keeps :
    (env : Env) (round : Round) (users : List ℕ) (s : Storage)
    → ((close_cancelled env round users s).funds ≡ s.funds)
      × ((close_cancelled env round users s).rounds.active_round ≡ none)
      × ((close_cancelled env round users s).archives.cancelled_round round.round_id ≡ some true)
unfolding clear_round_storage _archive_round
closed-keeps env round users s = (refl, refl, put-same _ round.round_id true)

-- The refunds, the coverage, and the rest.
then-Cancelled :
    (env : Env) (round : Round) (s s1 s2 : Storage)
    → Returned
        (stakes_due round.mode round.round_id s.rounds (participants_of s round.round_id))
        s
        (pos 0, s1)
    → SameFund s s1
    → Covered (participants_of s round.round_id) s1 s2
    → Cancelled round s (close_cancelled env round (participants_of s round.round_id) s2)
unfolding pending_of balance get_insurance_fund_balance
then-Cancelled env round s s1 s2 (paid, same) fund c =
    let users = participants_of s round.round_id in
    let (funds, active, marked) = closed-keeps env round users s2 in
    record {
      coverage = c.coverage;
      drawn = c.drawn;
      pays = λ v.
          ap (λ f. unwrap_or (f.pending_winnings v) (pos 0)) funds
          ∙ (c.pays v ∙ ap (λ x. x +ℤ paid_to users c.coverage v) (paid.pays v));
      solvent = c.solvent;
      affordable = rw fund at c.affordable;
      draws =
          sym paid.keeps_protocol
          ∙ (c.draws
              ∙ ap
                  (λ f.
                    treasury_amount f.protocol_fee_treasury
                    +ℤ unwrap_or f.insurance_fund (pos 0)
                    +ℤ c.drawn)
                  (sym funds));
      keeps_balances = λ v.
          ap (λ f. unwrap_or (f.balance v) (pos 0)) funds
          ∙ (c.keeps_balances v ∙ paid.keeps_balances v);
      drops_active = active;
      marks = marked;
    }

cancel_active-Ensures :
    (env : Env) (reason : ℕ) (round : Round) (s : Storage)
    → AreStakes round s
    → Ensures (Cancelled round s) (cancel_active env reason round s)
unfolding cancel_active
cancel_active-Ensures env reason round s (stakes, fits) =
    let users = participants_of s round.round_id in
    let id = round.round_id in
    let raw = raw_stake round.mode id s.rounds in
    Ensures-bind _ (cancel_participants env id round.mode users (pos 0) s) _
      (λ ((noted, total_stake), s1) e.
        let returned =
          Ensures-ok _ _ (cancel_participants-Returned env id round.mode users (pos 0) s) e in
        let fund =
          Ensures-ok _ _ (cancel_participants-SameFund env id round.mode users (pos 0) s) e in
        let (are, sums, totals) =
          Ensures-ok _ _
            (cancel_participants-Noted env id round.mode raw users 0 s (λ u. refl) stakes
              (omega arith))
            e in
        Ensures-bind _ (cover_round env (is_coverage_eligible s reason) users noted total_stake s1)
          _
          (λ s2 e2. then-Cancelled env round s s1 s2 returned fund (
            Ensures-ok _ _
              (subst
                (λ t.
                  Ensures (Covered users s1)
                    (cover_round env (is_coverage_eligible s reason) users noted t s1))
                (sym totals)
                (cover_round-Covered env users noted _ are (sums ∙ omega arith)
                  (is_coverage_eligible s reason) s1))
              e2)))

some-injective : {a b : Round} → some a ≡ some b → a ≡ b
some-injective e = cc

cancel-Ensures :
    (env : Env) (reason : ℕ) (round : Round) (s : Storage)
    → s.rounds.active_round ≡ some round
    → AreStakes round s
    → Ensures (Cancelled round s) (cancel_round env reason s)
unfolding cancel_round
cancel-Ensures env reason round s active stakes =
    Ensures-bind _ (_require_supported_schema s) _ (λ _ _.
      Ensures-bind _ (admin_auth env s) _ (λ _ _.
        Ensures-ok_or _ s.rounds.active_round _ _ (λ found e.
          subst (λ r. Ensures (Cancelled round s) (cancel_active env reason r s))
            (some-injective (sym active ∙ e)) (cancel_active-Ensures env reason round s stakes))))

-- When the active round, its participants' stakes not negative and adding up to an `i128`, is cancelled and
-- the call returns, no round is active, the round is marked as cancelled, and every user's pending winnings
-- grow by exactly that user's stakes in the round and a coverage. The coverages add up to no more than what
-- the call takes out of the insurance fund, by which the treasury and the fund together shrink; and that is
-- no more than the fund held, if its balance was not negative. No balance changes.
pub cancel_round-Cancelled :
    (env : Env) (reason : ℕ) (round : Round) (s : Storage) {s' : Storage}
    → s.rounds.active_round ≡ some round
    → AreStakes round s
    → cancel_round env reason s ≡ ok s'
    → Cancelled round s s'
cancel_round-Cancelled env reason round s active stakes h =
    Ensures-ok _ _ (cancel-Ensures env reason round s active stakes) h
