-- ===== src/Snowflake/Unique.antt =====
-- src/zrtools/zrt_snowflake.h: `nextId` called by any number of threads.
use zrtools.Prelude.{
  ℕ, ◌-◌, ◌^◌, ◌≤◌, ◌<◌, ◌≡◌, arith, Bool, false, List, ◌∷◌, Option, none, some, ◌==◌, ltb,
  if◌then◌else◌, map, All, IsDescending,
}
use native.Mathlib.Nat.{pow-le-pow_right}
use zrtools.Snowflake.Params.{Params, IsParams, max_server_id, max_timestamp, shr}
use zrtools.Snowflake.Generator.{
  Generator, drift_policy, proceed, propose, new_state, time_diff, make_id, finish, generated,
}
use zrtools.Snowflake.Ids.{IsIssuable}
use zrtools.Snowflake.Order.{clock_limit, Advances}

-- What a thread carries from its load of the state word to its exchange.
pub record Proposal : Type 0 where
  pub old_state : ℕ
  pub timestamp : ℕ
  pub sequence : ℕ

-- An identifier that a thread returned, with the state word that it stored.
pub record Issued : Type 0 where
  pub number : ℕ
  pub word : ℕ

-- The word that the threads share, what each carries, and what was returned, newest first.
pub record World : Type 0 where
  pub state : ℕ
  pub pending : ℕ → Option Proposal
  pub issued : List Issued

abbrev pub put_pending : (ℕ → Option Proposal) → ℕ → Option Proposal → ℕ → Option Proposal
put_pending f t v u = if t == u then v else f u

module _ (p : Params) (g : Generator) where
  -- The value that a thread returns; an overflow of the timestamp is thrown.
  unfoldable pub issue : Proposal → List Issued → List Issued
  issue pr issued = elim (finish p pr.timestamp pr.sequence g).0 [
    | generated n ↦ record { number = n; word = new_state p pr.timestamp pr.sequence } ∷ issued
    | _ ↦ issued
  ]

  -- The exchange by thread `t`, where the word is the one that it loaded.
  abbrev pub exchange : ℕ → Proposal → World → World
  exchange t pr w = record {
    state = new_state p pr.timestamp pr.sequence;
    pending = put_pending w.pending t none;
    issued = issue pr w.issued;
  }

  -- A thread that waits or throws on a clock that went back changes nothing here.
  pub data Call : World → World → Type 0 where
    loads :
        (w : World) (t now timestamp timestamp' sequence : ℕ) (kept overflowed : Bool)
        (readings rest : List ℕ)
        → drift_policy p now (shr w.state p.sequence_bits) ≡ proceed timestamp kept
        → propose p timestamp w.state readings ≡ some (timestamp', sequence, overflowed, rest)
        → timestamp' < clock_limit p
        → Call w (record w {
          pending =
              put_pending w.pending t (
                some (record { old_state = w.state; timestamp = timestamp'; sequence = sequence }));
        })
    exchanges :
        (w : World) (t : ℕ) (pr : Proposal)
        → w.pending t ≡ some pr
        → w.state ≡ pr.old_state
        → Call w (exchange t pr w)
    refuses :
        (w : World) (t : ℕ) (pr : Proposal)
        → w.pending t ≡ some pr
        → Call w (record w { pending = put_pending w.pending t none })

  pub data Calls (w : World) : World → Type 0 where
    none_yet : Calls w w
    and_then : {v u : World} → Calls w v → Call v u → Calls w u

  -- What the constructor has checked, and an epoch in the first half of 64 bits.
  pub record IsGenerator : Type 0 where
    pub server : g.server_id ≤ max_server_id p
    pub epoch : g.epoch_ms < 2 ^ 63

  module _ (q : IsParams p) (v : IsGenerator) where
    abbrev IsProposal : Proposal → Type 0
    IsProposal pr =
        Advances p pr.old_state pr.timestamp pr.sequence
        × (pr.sequence < 2 ^ p.sequence_bits)
        × (pr.timestamp < clock_limit p)

    record IsIssue (i : Issued) : Type 0 where
      timestamp : ℕ
      sequence : ℕ
      small : sequence < 2 ^ p.sequence_bits
      in_clock : timestamp < clock_limit p
      issuable : IsIssuable p g timestamp sequence
      number_lem : i.number ≡ make_id p g timestamp sequence
      word_lem : i.word ≡ new_state p timestamp sequence

    record IsOrdered (w : World) : Type 0 where
      proposals : (t : ℕ) (pr : Proposal) → w.pending t ≡ some pr → IsProposal pr
      issues : All (λ i. IsIssue i × (i.word ≤ w.state)) w.issued
      descending : IsDescending (map (λ i. i.number) w.issued)

    pub time_diff_fits :
        (timestamp : ℕ)
        → timestamp < clock_limit p
        → ltb (max_timestamp p) (time_diff p g timestamp) ≡ false
        → (g.epoch_ms ≤ timestamp)
          × (timestamp < 2 ^ 64)
          × (timestamp - g.epoch_ms ≤ max_timestamp p)
    time_diff_fits timestamp h e =
        let word : clock_limit p ≤ 2 ^ 64 = pow-le-pow_right (omega arith) {j = 64} (omega arith) in
        let most : 2 ^ p.timestamp_bits ≤ 2 ^ 50 =
          pow-le-pow_right (omega arith) {j = 50} q.timestamp_most in
        ground (arith, v.epoch, word, most)
