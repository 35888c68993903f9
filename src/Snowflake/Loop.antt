-- ===== src/Snowflake/Loop.antt =====
-- src/zrtools/zrt_snowflake.h: the loop of `nextId` for one caller.
use zrtools.Prelude.{
  ℕ, zero, suc, ◌^◌, ◌≤◌, ◌<◌, ◌≡◌, ◌≢◌, refl, ap, sym, ◌∙◌, arith, Bool, true, false, List, [],
  ◌∷◌, ◌++◌, none, some, Option-cases, inl, inr, length,
}
use zrtools.Snowflake.Params.{Params, shr, high_availability}
use zrtools.Snowflake.Generator.{
  Generator, Drift, drift_policy, proceed, wait, severe, fatal, propose, wait_next_millis, finish,
  commit, Result, clock_error, starved, next_id, count_wait, count_severe, count_proposal,
  count_refusal,
}

-- A later reading ends `waitNextMillis`.
wait_next_millis-some :
    (last later : ℕ) (readings : List ℕ)
    → last < later
    → wait_next_millis last (readings ++ (later ∷ [])) ≢ none
unfolding wait_next_millis
wait_next_millis-some last later [] h e = ground arith
wait_next_millis-some last later (r ∷ rs) h e = ground (arith, wait_next_millis-some last later rs)

module _ (p : Params) where
  commit-returns :
      (timestamp sequence : ℕ) (g : Generator) → (commit p timestamp sequence g).0 ≢ starved
  unfolding commit
  commit-returns timestamp sequence g e = ground arith

  propose-some :
      (timestamp state later : ℕ) (readings : List ℕ)
      → shr state p.sequence_bits < later
      → propose p timestamp state (readings ++ (later ∷ [])) ≢ none
  unfolding propose
  propose-some timestamp state later readings h e =
      ground (arith, wait_next_millis-some timestamp later readings)

  on_time : (now last : ℕ) → last ≤ now → drift_policy p now last ≡ proceed now false
  unfolding drift_policy
  on_time now last h = ground arith

  later_millisecond :
      (timestamp state : ℕ) (readings : List ℕ)
      → shr state p.sequence_bits < timestamp
      → propose p timestamp state readings ≡ some (timestamp, 0, false, readings)
  unfolding propose
  later_millisecond timestamp state readings h = ground arith

  -- What the exchange and the passes after it come to.
  unfoldable pub after_exchange : List Bool → ℕ → ℕ → ℕ → List ℕ → Generator → Result × Generator
  after_exchange [] fuel timestamp sequence rest g = commit p timestamp sequence g
  after_exchange (true ∷ more) fuel timestamp sequence rest g = commit p timestamp sequence g
  after_exchange (false ∷ more) fuel timestamp sequence rest g =
      next_id p fuel rest more (count_refusal g)

  pub next_id-proceed :
      (answers : List Bool) (now timestamp timestamp' sequence fuel : ℕ) (kept overflowed : Bool)
      (readings rest : List ℕ) (g : Generator)
      → drift_policy p now (shr g.state p.sequence_bits) ≡ proceed timestamp kept
      → propose p timestamp g.state readings ≡ some (timestamp', sequence, overflowed, rest)
      → next_id p (suc fuel) (now ∷ readings) answers g
        ≡ after_exchange answers fuel timestamp' sequence rest (count_proposal kept overflowed g)
  unfolding next_id after_exchange
  next_id-proceed [] now t t' s fuel kept over readings rest g k x = ground arith
  next_id-proceed (true ∷ more) now t t' s fuel kept over readings rest g k x = ground arith
  next_id-proceed (false ∷ more) now t t' s fuel kept over readings rest g k x = ground arith

  -- The first pass on a reading past the last timestamp.
  last_pass :
      (fuel later : ℕ) (g : Generator)
      → shr g.state p.sequence_bits < later
      → (next_id p (suc fuel) (later ∷ []) [] g).0 ≢ starved
  unfolding next_id
  last_pass fuel later g h e = ground (
    arith,
    on_time later (shr g.state p.sequence_bits),
    later_millisecond later g.state [],
    commit-returns later 0 (count_proposal false false g),
  )

  -- A pass on any reading, if the passes after it return.
  pass_returns :
      (d : Drift) (now later fuel : ℕ) (readings : List ℕ) (g : Generator)
      → drift_policy p now (shr g.state p.sequence_bits) ≡ d
      → shr g.state p.sequence_bits < later
      → ((g' : Generator)
          → shr g'.state p.sequence_bits < later
          → (next_id p fuel (readings ++ (later ∷ [])) [] g').0 ≢ starved)
      → (next_id p (suc fuel) (now ∷ (readings ++ (later ∷ []))) [] g).0 ≢ starved
  unfolding next_id count_wait count_severe
  pass_returns (fatal drift) now later fuel readings g k h ih e = ground arith
  pass_returns wait now later fuel readings g k h ih e = ih (count_wait g) h (ground arith)
  pass_returns severe now later fuel readings g k h ih e = ih (count_severe g) h (ground arith)
  pass_returns (proceed timestamp kept) now later fuel readings g k h ih e =
      elim (Option-cases (propose p timestamp g.state (readings ++ (later ∷ [])))) [
        | inl x ↦ propose-some timestamp g.state later readings h x
        | inr ((timestamp', sequence, overflowed, rest), x) ↦
            ground (arith, commit-returns timestamp' sequence (count_proposal kept overflowed g))
      ]

  -- `nextId` returns or throws once the clock has passed the timestamp of the last identifier, in
  -- as many passes as there are readings, if no exchange fails.
  pub next_id-returns :
      (readings : List ℕ) (later fuel : ℕ) (g : Generator)
      → shr g.state p.sequence_bits < later
      → length readings < fuel
      → (next_id p fuel (readings ++ (later ∷ [])) [] g).0 ≢ starved
  next_id-returns readings later zero g h f = absurd (omega arith)
  next_id-returns [] later (suc fuel) g h f = last_pass fuel later g h
  next_id-returns (now ∷ readings) later (suc fuel) g h f =
      pass_returns (drift_policy p now (shr g.state p.sequence_bits)) now later fuel readings g refl
        h (λ g' h'. next_id-returns readings later fuel g' h' (omega arith))

-- No step back of a clock within 64 bits is refused in this configuration.
high_availability-waits :
    (now last drift : ℕ) → last < 2 ^ 50 → drift_policy high_availability now last ≢ fatal drift
unfolding drift_policy
high_availability-waits now last drift h e = ground arith

commit-no_error :
    (p : Params) (timestamp sequence drift : ℕ) (g : Generator)
    → (commit p timestamp sequence g).0 ≢ clock_error drift
unfolding commit finish
commit-no_error p timestamp sequence drift g e = ground arith

-- The passes of this configuration, if those after them throw no such error.
pass_waits :
    (d : Drift) (now fuel drift : ℕ) (readings : List ℕ) (answers : List Bool) (g : Generator)
    → drift_policy high_availability now (shr g.state 14) ≡ d
    → g.state < 2 ^ 64
    → ((readings' : List ℕ) (answers' : List Bool) (g' : Generator)
        → g'.state < 2 ^ 64
        → (next_id high_availability fuel readings' answers' g').0 ≢ clock_error drift)
    → (next_id high_availability (suc fuel) (now ∷ readings) answers g).0 ≢ clock_error drift
unfolding next_id after_exchange count_wait count_severe count_proposal count_refusal
pass_waits (fatal d) now fuel drift readings answers g k h ih e =
    high_availability-waits now (shr g.state 14) d (omega arith) k
pass_waits wait now fuel drift readings answers g k h ih e =
    ih readings answers (count_wait g) h (ground arith)
pass_waits severe now fuel drift readings answers g k h ih e =
    ih readings answers (count_severe g) h (ground arith)
pass_waits (proceed t kept) now fuel drift readings answers g k h ih e =
    elim (Option-cases (propose high_availability t g.state readings)) [
      | inl x ↦ ground arith
      | inr ((t', s, over, rest), x) ↦ no_error answers t' s rest (count_proposal kept over g) h (
          sym (
            ap (λ r. r.0)
              (next_id-proceed high_availability answers now t t' s fuel kept over readings rest g k
                x))
          ∙ e)
    ]
  where
    no_error :
        (a : List Bool) (t' s : ℕ) (rest : List ℕ) (g' : Generator)
        → g'.state < 2 ^ 64
        → (after_exchange high_availability a fuel t' s rest g').0 ≢ clock_error drift
    no_error [] t' s rest g' h' = commit-no_error high_availability t' s drift g'
    no_error (true ∷ a) t' s rest g' h' = commit-no_error high_availability t' s drift g'
    no_error (false ∷ a) t' s rest g' h' = ih rest a (count_refusal g') h'

-- With the parameters of `SnowflakeHighAvailability` no call of `nextId` throws the error on a
-- clock that moved back: it waits, however long. The state word is one of 64 bits.
pub high_availability-next_id :
    (fuel : ℕ) (readings : List ℕ) (answers : List Bool) (g : Generator) (drift : ℕ)
    → g.state < 2 ^ 64
    → (next_id high_availability fuel readings answers g).0 ≢ clock_error drift
unfolding next_id
high_availability-next_id zero readings answers g drift h e = ground arith
high_availability-next_id (suc fuel) [] answers g drift h e = ground arith
high_availability-next_id (suc fuel) (now ∷ readings) answers g drift h e =
    pass_waits (drift_policy high_availability now (shr g.state 14)) now fuel drift readings answers
      g refl h (λ rs as' g' h'. high_availability-next_id fuel rs as' g' drift h') e
