-- ===== src/Snowflake/Tests.antt =====
-- The identifiers at concrete clocks.
use zrtools.Prelude.{ℕ, ◌+◌, ◌*◌, ◌^◌, ◌<◌, ◌≡◌, ◌≢◌, refl, arith, [], ◌∷◌, ◌++◌, none}
use zrtools.Snowflake.Params.{
  IsParams, standard, strict, tolerant, high_availability, large, high_throughput,
}
use zrtools.Snowflake.Generator.{
  Generator, no_stats, create, next_id, parse_id, make_id, generated, clock_error, starved,
  drift_policy, propose, commit, count_proposal,
}
use zrtools.Snowflake.Ids.{IsIssuable, make_id-lt, parse_id-make_id}
use zrtools.Snowflake.Unique.{World, IsGenerator}
use zrtools.Snowflake.Loop.{next_id-returns, high_availability-next_id}
use zrtools.Snowflake.Returned.{IsReturned, next_id-IsReturned}

-- The assertions hold of every alias.
aliases-IsParams :
    IsParams standard
    × IsParams strict
    × IsParams tolerant
    × IsParams high_availability
    × IsParams large
    × IsParams high_throughput
aliases-IsParams = omega arith

abbrev server_three : Generator
server_three = record { server_id = 3; epoch_ms = 1000; state = 0; stats = no_stats }

create_limits : (create standard 255 1000 ≢ none) × (create standard 256 1000 ≡ none)
unfolding create
create_limits = (λ e. cc, refl)

-- Two identifiers in one millisecond, then a clock that is 2 ms behind.
same_millisecond :
    let (_, g) = next_id standard 1 (1005 ∷ []) [] server_three in
    let (r, h) = next_id standard 1 (1003 ∷ []) [] g in
    parse_id standard h (5 * 2 ^ 22 + 3 * 2 ^ 14 + 1)
    ≡ record { timestamp_ms = 1005; server_id = 3; sequence = 1 }
unfolding next_id drift_policy propose commit count_proposal parse_id
same_millisecond = refl

too_far_back :
    (next_id standard 1 (3 ∷ []) [] (record server_three { state = 20000 * 2 ^ 14 })).0
    ≡ clock_error 19997
unfolding next_id drift_policy
too_far_back = refl

issuable : IsIssuable standard server_three 1005 7
issuable = omega arith

make_id-lt_example : make_id standard server_three 1005 7 < 2 ^ 63
make_id-lt_example = make_id-lt standard aliases-IsParams.0 server_three 1005 7 issuable

parse_id-make_id_example :
    parse_id standard server_three (make_id standard server_three 1005 7)
    ≡ record { timestamp_ms = 1005; server_id = 3; sequence = 7 }
parse_id-make_id_example = parse_id-make_id standard aliases-IsParams.0 server_three 1005 7 issuable

next_id-returns_example :
    (next_id standard 3
      ((900 ∷ 999 ∷ []) ++ (1006 ∷ []))
      []
      (record server_three { state = 1005 * 2 ^ 14 })).0
    ≢ starved
next_id-returns_example =
    next_id-returns standard (900 ∷ 999 ∷ []) 1006 3 (record server_three { state = 1005 * 2 ^ 14 })
      (omega arith) (omega arith)

server_three-IsGenerator : IsGenerator standard server_three
server_three-IsGenerator = omega arith

abbrev first_id : ℕ
first_id = 5 * 2 ^ 22 + 3 * 2 ^ 14

abbrev after_first : Generator
after_first = record {
  server_id = 3;
  epoch_ms = 1000;
  state = 1005 * 2 ^ 14;
  stats = record no_stats { id_count = 1 };
}

first_call : next_id standard 1 (1005 ∷ []) [] server_three ≡ (generated first_id, after_first)
unfolding next_id drift_policy propose commit count_proposal
first_call = refl

next_id-IsReturned_example : IsReturned standard server_three first_id after_first
next_id-IsReturned_example =
    next_id-IsReturned standard aliases-IsParams.0 1 (1005 ∷ []) [] server_three after_first
      first_id server_three-IsGenerator (omega arith) (omega arith) first_call

high_availability-next_id_example :
    (next_id high_availability 1 (3 ∷ []) [] (record server_three { state = 20000 * 2 ^ 14 })).0
    ≢ clock_error 19997
high_availability-next_id_example =
    high_availability-next_id 1 (3 ∷ []) [] (record server_three { state = 20000 * 2 ^ 14 }) 19997
      (omega arith)

abbrev idle_threads : World
idle_threads = record { state = 0; pending = λ t. none; issued = [] }
