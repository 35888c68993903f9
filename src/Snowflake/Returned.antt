-- ===== src/Snowflake/Returned.antt =====
-- src/zrtools/zrt_snowflake.h: what `nextId` returns to one caller.
use zrtools.Prelude.{
  ℕ, zero, suc, ◌^◌, ◌<◌, ◌≡◌, ◌≢◌, refl, ap, sym, subst, ◌∙◌, arith, Bool, true, false, List, [],
  ◌∷◌, Option, none, some, Bool-cases, Option-cases, inl, inr, ◌⊎◌, leb, ltb, All, bit_and,
}
use zrtools.Snowflake.Params.{Params, IsParams, max_sequence, max_timestamp, shr}
use zrtools.Snowflake.Generator.{
  Generator, Drift, drift_policy, proceed, wait, severe, fatal, propose, wait_next_millis,
  new_state, time_diff, make_id, finish, commit, generated, next_id, parse_id, count_error,
  count_wait, count_severe, count_proposal, count_refusal,
}
use zrtools.Snowflake.Unique.{IsGenerator, time_diff_fits}
use zrtools.Prelude.Bits.{bit_and-low_mask, mod_unique, div_unique}
use zrtools.Snowflake.Loop.{after_exchange, next_id-proceed}
use zrtools.Snowflake.Ids.{parse_id-make_id}
use zrtools.Snowflake.Order.{
  clock_limit, new_state-sum, Advances, Advances-lt, propose-Advances, drift_policy-proceed,
}

-- The parts of an identifier that is returned, and the state word that it leaves.
pub record IsReturned (p : Params) (g : Generator) (n : ℕ) (g' : Generator) : Type 0 where
  pub parts : parse_id p g n ≡ record {
    timestamp_ms = shr g'.state p.sequence_bits;
    server_id = g.server_id;
    sequence = bit_and g'.state (max_sequence p);
  }
  pub raised : g.state < g'.state

-- Every reading keeps its bits in the state word.
abbrev pub InClock : Params → List ℕ → Type 0
InClock p readings = All (λ r. r < clock_limit p) readings

wait_next_millis-InClock :
    (p : Params) (last : ℕ) (readings : List ℕ) (later : ℕ) (rest : List ℕ)
    → InClock p readings
    → wait_next_millis last readings ≡ some (later, rest)
    → (later < clock_limit p) × InClock p rest
unfolding wait_next_millis
wait_next_millis-InClock p last [] later rest h e = cc
wait_next_millis-InClock p last (r ∷ rs) later rest h e = elim (Bool-cases (leb r last)) [
  | inl early ↦ wait_next_millis-InClock p last rs later rest h.1 (rw early at e)
  | inr late ↦
      let e' : ◌≡◌ {A = Option (ℕ × List ℕ)} (some (r, rs)) (some (later, rest)) = rw late at e in
      subst (λ (x : ℕ × List ℕ). (x.0 < clock_limit p) × InClock p x.1)
        (ap (λ (o : Option (ℕ × List ℕ)). elim o [ none ↦ (r, rs) | some x ↦ x ]) e') h
]

module _ (p : Params) (q : IsParams p) where
  -- The state word gives back its timestamp and its sequence number.
  new_state-parts :
      (timestamp sequence : ℕ)
      → timestamp < clock_limit p
      → sequence < 2 ^ p.sequence_bits
      → (shr (new_state p timestamp sequence) p.sequence_bits ≡ timestamp)
        × (bit_and (new_state p timestamp sequence) (max_sequence p) ≡ sequence)
  new_state-parts timestamp sequence t s = rw (new_state-sum p q timestamp sequence t s) (
    div_unique (2 ^ p.sequence_bits) timestamp sequence s,
    bit_and-low_mask p.sequence_bits _ ∙ mod_unique (2 ^ p.sequence_bits) timestamp sequence s,
  )

  issued-IsReturned :
      (timestamp sequence : ℕ) (g : Generator)
      → IsGenerator p g
      → Advances p g.state timestamp sequence
      → sequence < 2 ^ p.sequence_bits
      → timestamp < clock_limit p
      → ltb (max_timestamp p) (time_diff p g timestamp) ≡ false
      → (g' : Generator) → g'.server_id ≡ g.server_id
      → g'.epoch_ms ≡ g.epoch_ms
      → g'.state ≡ new_state p timestamp sequence
      → IsReturned p g (make_id p g timestamp sequence) g'
  issued-IsReturned timestamp sequence g v a s t fits g' i e w =
      let (after, word, late) = time_diff_fits p g q v timestamp t fits in
      let (shifted, masked) = new_state-parts timestamp sequence t s in
      let parsed = parse_id-make_id p q g timestamp sequence (record {
        server = v.server;
        after_epoch = after;
        word = word;
        in_time = late;
        in_sequence = omega (arith, s);
      }) in
      record {
        parts = rw (w, shifted, masked) parsed;
        raised = rw w (Advances-lt p q g.state timestamp sequence a s t);
      }

  make_id-state :
      (g : Generator) (w timestamp sequence : ℕ)
      → make_id p (record g { state = w }) timestamp sequence ≡ make_id p g timestamp sequence
  unfolding make_id
  make_id-state g w timestamp sequence = refl

  commit-IsReturned :
      (timestamp sequence n : ℕ) (g g' : Generator)
      → IsGenerator p g
      → Advances p g.state timestamp sequence
      → sequence < 2 ^ p.sequence_bits
      → timestamp < clock_limit p
      → commit p timestamp sequence g ≡ (generated n, g')
      → IsReturned p g n g'
  unfolding commit finish
  commit-IsReturned timestamp sequence n g g' v a s t e =
      elim (Bool-cases (ltb (max_timestamp p) (time_diff p g timestamp))) [
        | inl over ↦ ground arith
        | inr fits ↦
            let number : make_id p g timestamp sequence ≡ n =
              ground (arith, make_id-state g (new_state p timestamp sequence) timestamp sequence) in
            subst (λ k. IsReturned p g k g') number
              (issued-IsReturned timestamp sequence g v a s t fits g' (ground arith) (ground arith)
                (ground arith))
      ]

  -- The counters are no part of it.
  counted-IsReturned :
      (g h : Generator) (n : ℕ) (g' : Generator)
      → h.server_id ≡ g.server_id
      → h.epoch_ms ≡ g.epoch_ms
      → h.state ≡ g.state
      → IsReturned p h n g'
      → IsReturned p g n g'
  unfolding parse_id
  counted-IsReturned g h n g' i e w r = record {
    parts = ground (arith, r.parts);
    raised = omega (arith, r.raised);
  }

  propose-readings :
      (timestamp state : ℕ) (readings : List ℕ) (timestamp' sequence : ℕ) (overflowed : Bool)
      (rest : List ℕ)
      → propose p timestamp state readings ≡ some (timestamp', sequence, overflowed, rest)
      → ((timestamp' ≡ timestamp) × (rest ≡ readings))
        ⊎ (wait_next_millis timestamp readings ≡ some (timestamp', rest))
  unfolding propose
  propose-readings timestamp state readings timestamp' sequence overflowed rest e = ground arith

  propose-InClock :
      (timestamp state : ℕ) (readings : List ℕ) (timestamp' sequence : ℕ) (overflowed : Bool)
      (rest : List ℕ)
      → timestamp < clock_limit p
      → InClock p readings
      → propose p timestamp state readings ≡ some (timestamp', sequence, overflowed, rest)
      → (timestamp' < clock_limit p) × InClock p rest
  propose-InClock timestamp state readings timestamp' sequence overflowed rest t c e =
      elim (propose-readings timestamp state readings timestamp' sequence overflowed rest e) [
        | inl (same, all) ↦ (omega (arith, same), subst (InClock p) (sym all) c)
        | inr later ↦ wait_next_millis-InClock p timestamp readings timestamp' rest c later
      ]

  drift_policy-in_clock :
      (now last timestamp : ℕ) (kept : Bool)
      → now < clock_limit p
      → last < clock_limit p
      → drift_policy p now last ≡ proceed timestamp kept
      → timestamp < clock_limit p
  unfolding drift_policy
  drift_policy-in_clock now last timestamp kept h k e = ground arith

  -- What a caller of `nextId` may count on.
  abbrev Sound : ℕ → Type 0
  Sound fuel =
      (readings : List ℕ) (answers : List Bool) (g g' : Generator) (n : ℕ)
      → IsGenerator p g
      → shr g.state p.sequence_bits < clock_limit p
      → InClock p readings
      → next_id p fuel readings answers g ≡ (generated n, g')
      → IsReturned p g n g'

  exchange-IsReturned :
      (answers : List Bool) (timestamp' sequence fuel : ℕ) (rest : List ℕ) (g g' : Generator)
      (n : ℕ)
      → Sound fuel
      → IsGenerator p g
      → shr g.state p.sequence_bits < clock_limit p
      → Advances p g.state timestamp' sequence
      → sequence < 2 ^ p.sequence_bits
      → timestamp' < clock_limit p
      → InClock p rest
      → after_exchange p answers fuel timestamp' sequence rest g ≡ (generated n, g')
      → IsReturned p g n g'
  unfolding after_exchange count_refusal
  exchange-IsReturned [] t s fuel rest g g' n ih v w a small l c e =
      commit-IsReturned t s n g g' v a small l e
  exchange-IsReturned (true ∷ more) t s fuel rest g g' n ih v w a small l c e =
      commit-IsReturned t s n g g' v a small l e
  exchange-IsReturned (false ∷ more) t s fuel rest g g' n ih v w a small l c e =
      counted-IsReturned g (count_refusal g) n g' refl refl refl
        (ih rest more (count_refusal g) g' n (record { server = v.server; epoch = v.epoch }) w c e)

  out_of_fuel :
      (readings : List ℕ) (answers : List Bool) (g : Generator) {n : ℕ} {g' : Generator}
      → next_id p 0 readings answers g ≢ (generated n, g')
  unfolding next_id
  out_of_fuel readings answers g e = ground arith

  out_of_readings :
      (fuel : ℕ) (answers : List Bool) (g : Generator) {n : ℕ} {g' : Generator}
      → next_id p (suc fuel) [] answers g ≢ (generated n, g')
  unfolding next_id
  out_of_readings fuel answers g e = ground arith

  pass-IsReturned :
      (d : Drift) (now fuel : ℕ) (readings : List ℕ) (answers : List Bool) (g g' : Generator)
      (n : ℕ)
      → drift_policy p now (shr g.state p.sequence_bits) ≡ d
      → Sound fuel
      → IsGenerator p g
      → shr g.state p.sequence_bits < clock_limit p
      → InClock p (now ∷ readings)
      → next_id p (suc fuel) (now ∷ readings) answers g ≡ (generated n, g')
      → IsReturned p g n g'
  unfolding next_id count_wait count_severe count_error count_proposal
  pass-IsReturned (fatal drift) now fuel readings answers g g' n k ih v w c e = ground arith
  pass-IsReturned wait now fuel readings answers g g' n k ih v w c e =
      counted-IsReturned g (count_wait g) n g' refl refl refl (
        ih readings answers (count_wait g) g' n (record { server = v.server; epoch = v.epoch }) w
          c.1 (ground arith))
  pass-IsReturned severe now fuel readings answers g g' n k ih v w c e =
      counted-IsReturned g (count_severe g) n g' refl refl refl (
        ih readings answers (count_severe g) g' n (record { server = v.server; epoch = v.epoch }) w
          c.1 (ground arith))
  pass-IsReturned (proceed timestamp kept) now fuel readings answers g g' n k ih v w c e =
      elim (Option-cases (propose p timestamp g.state readings)) [
        | inl x ↦ ground arith
        | inr ((timestamp', sequence, overflowed, rest), x) ↦
            let last = shr g.state p.sequence_bits in
            let (advances, small) =
              propose-Advances p q timestamp g.state readings rest timestamp' sequence overflowed
                (drift_policy-proceed p now last k) x in
            let (late, in_clock) =
              propose-InClock timestamp g.state readings timestamp' sequence overflowed rest
                (drift_policy-in_clock now last timestamp kept c.0 w k) c.1 x in
            counted-IsReturned g (count_proposal kept overflowed g) n g' refl refl refl (
              exchange-IsReturned answers timestamp' sequence fuel rest
                (count_proposal kept overflowed g) g' n ih
                (record { server = v.server; epoch = v.epoch }) w advances small late in_clock
                (sym (
                    next_id-proceed p answers now timestamp timestamp' sequence fuel kept overflowed
                      readings rest g k x)
                  ∙ e))
      ]

  next_id-Sound : (fuel : ℕ) → Sound fuel
  next_id-Sound zero readings answers g g' n v w c e = absurd (out_of_fuel readings answers g e)
  next_id-Sound (suc fuel) [] answers g g' n v w c e = absurd (out_of_readings fuel answers g e)
  next_id-Sound (suc fuel) (now ∷ readings) answers g g' n v w c e =
      pass-IsReturned (drift_policy p now (shr g.state p.sequence_bits)) now fuel readings answers g
        g' n refl (next_id-Sound fuel) v w c e

  -- An identifier that `nextId` returns parses to the server number and to the timestamp and the
  -- sequence number of the state word that it leaves, which is above the word before. The server
  -- number is in its range, the epoch in the first half of 64 bits, and the word's timestamp and
  -- the readings of the clock keep their bits in the state word.
  pub next_id-IsReturned :
      (fuel : ℕ) (readings : List ℕ) (answers : List Bool) (g g' : Generator) (n : ℕ)
      → IsGenerator p g
      → shr g.state p.sequence_bits < clock_limit p
      → InClock p readings
      → next_id p fuel readings answers g ≡ (generated n, g')
      → IsReturned p g n g'
  next_id-IsReturned fuel = next_id-Sound fuel
