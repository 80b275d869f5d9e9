-- ===== src/Replay/Refinement/Rows.antt =====
-- The rows of a transcript, from the positions that a round's participants hold.
use xelma_blockchain.Prelude.{
  ℕ, suc, ◌≡◌, refl, ◌∙◌, Bool, true, false, Option, none, some, List, [], ◌∷◌, map, ◌==◌, ==_refl,
  if◌then◌else◌,
}
use xelma_blockchain.Int.{ℤ, pos, ◌+ℤ◌, int_laws}
use xelma_blockchain.Contract.State.{Map, UserPosition, side_is, bet_up}
use xelma_blockchain.Contract.Settlement.Payments.{due}
use xelma_blockchain.SettlementMath.UpDown.{UpDownPosition, UpDownPayoutEntry}
use xelma_blockchain.Replay.Transcript.{TranscriptParticipant, done, order_check, is_empty}
use xelma_blockchain.Replay.Engine.{ReplayPayout, position_row, updown_payout, all_hold}

abbrev pub row : ℕ → ℕ → UserPosition → TranscriptParticipant
row i user p = record {
  index = i;
  address = some user;
  amount = p.amount;
  side_up = some (side_is p.side bet_up);
  commit_reveal = record { revealed = false; predicted_price = 0 };
}

abbrev pub with_row :
    ℕ → ℕ → Option UserPosition → (ℕ → List TranscriptParticipant) → List TranscriptParticipant
with_row i user none rest = rest i
with_row i user (some p) rest = row i user p ∷ rest (suc i)

-- A row for each listed user with a position, numbered from an index on.
abbrev pub rows : ℕ → Map UserPosition → List ℕ → List TranscriptParticipant
rows i m [] = []
rows i m (u ∷ us) = with_row i u (m u) (λ j. rows j m us)

abbrev pub is_of : ℕ → Option ℕ → Bool
is_of user none = false
is_of user (some a) = a == user

-- What the payouts come to for the user of a row.
abbrev pub credited : ℕ → List TranscriptParticipant → List ReplayPayout → ℤ
credited user [] rs = pos 0
credited user (p ∷ ps) [] = pos 0
credited user (p ∷ ps) (r ∷ rs) =
    (if is_of user p.address then r.payout else pos 0) +ℤ credited user ps rs

order_check-with_row :
    (i u : ℕ) (o : Option UserPosition) (rest : ℕ → List TranscriptParticipant)
    → ((j : ℕ) → order_check j (rest j) ≡ done tt)
    → order_check i (with_row i u o rest) ≡ done tt
unfolding order_check
order_check-with_row i u none rest h = h i
order_check-with_row i u (some p) rest h = rw (==_refl i) (h (suc i))

pub order_check-rows :
    (i : ℕ) (m : Map UserPosition) (users : List ℕ) → order_check i (rows i m users) ≡ done tt
unfolding order_check
order_check-rows i m [] = refl
order_check-rows i m (u ∷ us) =
    order_check-with_row i u (m u) (λ j. rows j m us) (λ j. order_check-rows j m us)

abbrev pub payouts_of :
    (UpDownPosition → UpDownPayoutEntry) → List TranscriptParticipant → List ReplayPayout
payouts_of entry ps = map updown_payout (map entry (map position_row ps))

-- Payouts by a rule add up to what is due by the same rule.
module _ (entry : UpDownPosition → UpDownPayoutEntry) (worth : Option UserPosition → ℤ)
    (unheld : worth none ≡ pos 0)
    (held : (i u : ℕ) (p : UserPosition)
      → (entry (position_row (row i u p))).payout ≡ worth (some p)) where
  nothing_due : (b : Bool) (rest : ℤ) → rest ≡ (if b then worth none else pos 0) +ℤ rest
  nothing_due true rest = rw unheld (omega int_laws)
  nothing_due false rest = omega int_laws

  credited-with_row :
      (i u v : ℕ) (o : Option UserPosition) (rest : ℕ → List TranscriptParticipant) (d : ℤ)
      → ((j : ℕ) → credited v (rest j) (payouts_of entry (rest j)) ≡ d)
      → credited v (with_row i u o rest) (payouts_of entry (with_row i u o rest))
        ≡ (if u == v then worth o else pos 0) +ℤ d
  credited-with_row i u v none rest d h = h i ∙ nothing_due (u == v) d
  credited-with_row i u v (some p) rest d h = rw (held i u p, h (suc i)) refl

  pub credited-rows :
      (i : ℕ) (m : Map UserPosition) (users : List ℕ) (v : ℕ)
      → credited v (rows i m users) (payouts_of entry (rows i m users)) ≡ due worth m users v
  credited-rows i m [] v = refl
  credited-rows i m (u ∷ us) v =
      credited-with_row i u v (m u) (λ j. rows j m us) (due worth m us v)
        (λ j. credited-rows j m us v)

-- A test that all entries answer alike.
pub all_hold_const :
    (entry : UpDownPosition → UpDownPayoutEntry) (b : Bool) (ps : List TranscriptParticipant)
    → ((q : UpDownPosition) → (entry q).is_refund ≡ b)
    → is_empty ps ≡ false
    → all_hold (λ e. e.is_refund) (map entry (map position_row ps)) ≡ b
all_hold_const entry b [] h ne = cc
all_hold_const entry true (p ∷ []) h ne = rw (h (position_row p)) refl
all_hold_const entry true (p ∷ q ∷ ps) h ne =
    rw (h (position_row p)) (all_hold_const entry true (q ∷ ps) h refl)
all_hold_const entry false (p ∷ ps) h ne = rw (h (position_row p)) refl
