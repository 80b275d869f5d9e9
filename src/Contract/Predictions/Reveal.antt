-- ===== src/Contract/Predictions/Reveal.antt =====
-- What `reveal_prediction` of contracts/src/betting.rs has checked and written when it succeeds.
use xelma_blockchain.Prelude.{
  ℕ, ◌≤◌, ◌<◌, ◌≡◌, refl, ap, ◌∙◌, true, false, not, Option, some, List, arith,
}
use xelma_blockchain.Errors
use xelma_blockchain.Errors.{ok, Ensures, Ensures-ok, Ensures-bind, Ensures-if, Ensures-ok_or}
use xelma_blockchain.Contract.State.{
  Env, require_auth, put-same, put_in_round, put-in_round-same, Storage, Round, precision,
  PrecisionCommitment,
}
use xelma_blockchain.Contract.Admin.{_ensure_normal_mode}
use xelma_blockchain.Contract.AccessControl.{_enforce_access_control}
use xelma_blockchain.Contract.Betting.{require_mode}
use xelma_blockchain.Contract.Predictions.{
  salt_has_minimum_entropy, reveal_window, opens, reveal_prediction,
}

module _ (sha256 : ℕ → List ℕ → ℕ) (env : Env) (user predicted_price : ℕ) (salt : List ℕ) where
  -- A reveal of the active round's commitment of a user.
  pub record Revealed (s s' : Storage) : Type 0 where
    pub round : Round
    pub commitment : PrecisionCommitment
    pub was_active : s.rounds.active_round ≡ some round
    pub stays_active : s'.rounds.active_round ≡ some round
    pub is_reveal_time : (round.bet_end_ledger ≤ env.sequence) × (env.sequence < round.end_ledger)
    pub committed : s.rounds.precision_commitment round.round_id user ≡ some commitment
    pub was_hidden : commitment.revealed ≡ false
    pub matches : sha256 predicted_price salt ≡ commitment.hash
    pub is_open :
        s'.rounds.precision_commitment round.round_id user
        ≡ some (record commitment { revealed = true })
    pub predicts :
        s'.rounds.precision_position round.round_id user
        ≡ some
            (record { user = user; predicted_price = predicted_price; amount = commitment.amount })
    pub keeps_funds : s'.funds ≡ s.funds

  reveal_window-Ensures :
      (round : Round)
      → Ensures
          (λ t. (round.bet_end_ledger ≤ env.sequence) × (env.sequence < round.end_ledger))
          (reveal_window env round)
  unfolding reveal_window
  reveal_window-Ensures round = ground arith

  opens-Ensures :
      (c : PrecisionCommitment)
      → Ensures
          (λ t. (c.revealed ≡ false) × (sha256 predicted_price salt ≡ c.hash))
          (opens sha256 predicted_price salt c)
  unfolding opens
  opens-Ensures c = ground arith

  put_in_round-lookup :
      {V : Type 0} (m : ℕ → ℕ → Option V) (round_id : ℕ) (v : V)
      → put_in_round m round_id user v round_id user ≡ some v
  put_in_round-lookup m round_id v =
      ap (λ f. f user) (put-in_round-same (m round_id) user m round_id v)
      ∙ put-same (m round_id) user v

  reveal_prediction-Ensures :
      (s : Storage)
      → Ensures (Revealed s) (reveal_prediction sha256 env user predicted_price salt s)
  unfolding reveal_prediction
  reveal_prediction-Ensures s = Ensures-bind _ (require_auth env user) _ (λ t1 e1.
      Ensures-bind _ (_ensure_normal_mode s) _ (λ t2 e2.
        Ensures-bind _ (_enforce_access_control s user) _ (λ t3 e3.
          Ensures-if _ (not (salt_has_minimum_entropy salt)) _ _ (λ e. tt)
            (λ strong. Ensures-ok_or _ s.rounds.active_round _ _ (λ round active.
              Ensures-bind _ (require_mode precision round Errors.wrong_mode_for_prediction) _
                (λ t4 e4. Ensures-bind _ (reveal_window env round) _ (λ t5 window.
                  Ensures-ok_or _ (s.rounds.precision_commitment round.round_id user) _ _
                    (λ commitment committed.
                      Ensures-bind _ (opens sha256 predicted_price salt commitment) _ (λ t6 opened.
                        record {
                          round = round;
                          commitment = commitment;
                          was_active = active;
                          stays_active = active;
                          is_reveal_time = Ensures-ok _ _ (reveal_window-Ensures round) window;
                          committed = committed;
                          was_hidden = (Ensures-ok _ _ (opens-Ensures commitment) opened).0;
                          matches = (Ensures-ok _ _ (opens-Ensures commitment) opened).1;
                          is_open =
                              put_in_round-lookup s.rounds.precision_commitment round.round_id _;
                          predicts =
                              put_in_round-lookup s.rounds.precision_position round.round_id _;
                          keeps_funds = refl;
                        })))))))))

-- A reveal that succeeds comes between the last betting ledger and the end of the active round, opens a
-- commitment that was not open and whose hash is that of the price and the salt, and records the price
-- with exactly the amount that was committed; no money moves.
pub reveal_prediction-Revealed :
    (sha256 : ℕ → List ℕ → ℕ) (env : Env) (user predicted_price : ℕ) (salt : List ℕ) (s : Storage)
    {s' : Storage}
    → reveal_prediction sha256 env user predicted_price salt s ≡ ok s'
    → Revealed sha256 env user predicted_price salt s s'
reveal_prediction-Revealed sha256 env user predicted_price salt s h =
    Ensures-ok _ _ (reveal_prediction-Ensures sha256 env user predicted_price salt s) h
