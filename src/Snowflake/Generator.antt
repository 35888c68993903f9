-- ===== src/Snowflake/Generator.antt =====
-- src/zrtools/zrt_snowflake.h: the generator's state, one pass of the loop in `nextId`, the loop,
-- and `parseId`. Readings of the system clock are a list, in the order in which they are taken.
use zrtools.Prelude.{
  ℕ, zero, suc, ◌+◌, ◌-◌, ◌%◌, ◌^◌, Bool, true, false, List, [], ◌∷◌, Option, none, some, bit_and,
  bit_or, if◌then◌else◌, ltb, leb, ◌==◌,
}
use zrtools.Snowflake.Params.{
  Params, server_id_shift, timestamp_shift, max_server_id, max_sequence, max_timestamp, shl, shr,
}

-- The counters of `printStats`, each modulo 2 ^ 64.
pub record Stats : Type 0 where
  pub id_count : ℕ
  pub cas_fail_count : ℕ
  pub overflow_count : ℕ
  pub drift_count : ℕ
  pub wait_count : ℕ
  pub severe_drift_count : ℕ
  pub error_count : ℕ

pub record Generator : Type 0 where
  pub server_id : ℕ
  pub epoch_ms : ℕ
  pub state : ℕ
  pub stats : Stats

-- `fetch_add(1)`
abbrev pub bump : ℕ → ℕ
bump n = (n + 1) % 2 ^ 64

-- `resetStats`, and the counters of a new generator.
abbrev pub no_stats : Stats
no_stats = record {
  id_count = 0;
  cas_fail_count = 0;
  overflow_count = 0;
  drift_count = 0;
  wait_count = 0;
  severe_drift_count = 0;
  error_count = 0;
}

unfoldable pub reset_stats : Generator → Generator
reset_stats g = record g { stats = no_stats }

-- What the three levels of clock drift make of a reading.
pub data Drift : Type 0 where
  -- The timestamp to use, and whether it was kept from before.
  proceed : ℕ → Bool → Drift
  wait : Drift
  severe : Drift
  fatal : ℕ → Drift

-- What `nextId` comes to. `starved` is no result of the code: it waits for readings.
pub data Result : Type 0 where
  generated : ℕ → Result
  clock_error : ℕ → Result
  timestamp_overflow : ℕ → Result
  starved : Result

-- `waitNextMillis`: the first reading past `last`, and the readings after it.
unfoldable pub wait_next_millis : ℕ → List ℕ → Option (ℕ × List ℕ)
wait_next_millis last [] = none
wait_next_millis last (timestamp ∷ readings) =
    let later = wait_next_millis last readings in
    if leb timestamp last then later else some (timestamp, readings)

-- What a pass counts, on each way through it.
unfoldable pub count_error : Generator → Generator
count_error g = record g { stats = record (g.stats) { error_count = bump g.stats.error_count } }

unfoldable pub count_wait : Generator → Generator
count_wait g = record g { stats = record (g.stats) { wait_count = bump g.stats.wait_count } }

unfoldable pub count_severe : Generator → Generator
count_severe g = record g {
  stats = record (g.stats) { severe_drift_count = bump g.stats.severe_drift_count };
}

unfoldable pub count_proposal : Bool → Bool → Generator → Generator
count_proposal kept overflowed g =
    let stats = g.stats in
    record g {
      stats = record stats {
        drift_count = if kept then bump stats.drift_count else stats.drift_count;
        overflow_count = if overflowed then bump stats.overflow_count else stats.overflow_count;
      };
    }

unfoldable pub count_refusal : Generator → Generator
count_refusal g = record g {
  stats = record (g.stats) { cas_fail_count = bump g.stats.cas_fail_count };
}

module _ (p : Params) where
  -- The constructor: `none` for `std::invalid_argument`.
  unfoldable pub create : ℕ → ℕ → Option Generator
  create server_id epoch_ms =
      if ltb (max_server_id p) server_id
      then none
      else some (record { server_id = server_id; epoch_ms = epoch_ms; state = 0; stats = no_stats })

  unfoldable pub drift_policy : ℕ → ℕ → Drift
  drift_policy now last_timestamp =
      let drift = last_timestamp - now in
      if ltb now last_timestamp
      then (if ltb drift p.tolerance_ms
          then proceed last_timestamp true
          else (if ltb drift p.wait_threshold_ms
              then wait
              else (if ltb drift p.error_threshold_ms then severe else fatal drift)))
      else proceed now false

  -- The timestamp and the sequence number that a pass proposes, whether the sequence overflowed,
  -- and the readings that are left. `none` where these ran out while it waited.
  unfoldable pub propose : ℕ → ℕ → List ℕ → Option (ℕ × ℕ × Bool × List ℕ)
  unfolding wait_next_millis
  propose timestamp old_state readings =
      let last_timestamp = shr old_state p.sequence_bits in
      let sequence = bit_and old_state (max_sequence p) in
      let new_sequence = bit_and ((sequence + 1) % 2 ^ 64) (max_sequence p) in
      if timestamp == last_timestamp
      then (if new_sequence == 0
          then elim (wait_next_millis timestamp readings) [
            | none ↦ none
            | some (later, rest) ↦ some (later, 0, true, rest)
          ]
          else some (timestamp, new_sequence, false, readings))
      else some (timestamp, 0, false, readings)

  abbrev pub new_state : ℕ → ℕ → ℕ
  new_state timestamp sequence = bit_or (shl timestamp p.sequence_bits) sequence

  -- `timestamp - epoch_ms_`
  abbrev pub time_diff : Generator → ℕ → ℕ
  time_diff g timestamp = (timestamp + 2 ^ 64 - g.epoch_ms) % 2 ^ 64

  -- The identifier, after the timestamp has passed its check.
  unfoldable pub make_id : Generator → ℕ → ℕ → ℕ
  make_id g timestamp sequence =
      bit_or
        (bit_or (shl (time_diff g timestamp) (timestamp_shift p))
          (shl g.server_id (server_id_shift p)))
        sequence

  -- After the exchange has succeeded.
  unfoldable pub finish : ℕ → ℕ → Generator → Result × Generator
  unfolding make_id
  finish timestamp sequence g =
      let stats = g.stats in
      if ltb (max_timestamp p) (time_diff g timestamp)
      then (timestamp_overflow (time_diff g timestamp), g)
      else (
        generated (make_id g timestamp sequence),
        record g { stats = record stats { id_count = bump stats.id_count } },
      )

  -- The exchange and what follows it.
  unfoldable pub commit : ℕ → ℕ → Generator → Result × Generator
  unfolding finish
  commit timestamp sequence g =
      finish timestamp sequence (record g { state = new_state timestamp sequence })

  -- `nextId`: the passes of its loop, each on the next reading, with what the weak exchange
  -- answers (success where the answers run out). The fuel bounds the passes.
  unfoldable pub next_id : ℕ → List ℕ → List Bool → Generator → Result × Generator
  next_id zero readings answers g = (starved, g)
  next_id (suc fuel) [] answers g = (starved, g)
  next_id (suc fuel) (now ∷ readings) answers g =
      elim (drift_policy now (shr g.state p.sequence_bits)) [
        | fatal drift ↦ (clock_error drift, count_error g)
        | wait ↦ next_id fuel readings answers (count_wait g)
        | severe ↦ next_id fuel readings answers (count_severe g)
        | proceed timestamp kept ↦ elim (propose timestamp g.state readings) [
          | none ↦ (starved, g)
          | some (timestamp', sequence, overflowed, rest) ↦ elim answers [
            | [] ↦ commit timestamp' sequence (count_proposal kept overflowed g)
            | true ∷ more ↦ commit timestamp' sequence (count_proposal kept overflowed g)
            | false ∷ more ↦
                next_id fuel rest more (count_refusal (count_proposal kept overflowed g))
          ]
        ]
      ]

pub record ParsedId : Type 0 where
  pub timestamp_ms : ℕ
  pub server_id : ℕ
  pub sequence : ℕ

-- `parseId`
unfoldable pub parse_id : Params → Generator → ℕ → ParsedId
parse_id p g id = record {
  sequence = bit_and id (max_sequence p);
  server_id = bit_and (shr id (server_id_shift p)) (max_server_id p);
  timestamp_ms = (shr id (timestamp_shift p) + g.epoch_ms) % 2 ^ 64;
}
