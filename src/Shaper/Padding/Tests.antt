-- ===== src/Shaper/Padding/Tests.antt =====
-- A tick of the padding loop over whole numbers.
use ghost_vpn.Shaper.Distribution.{Bin}
use ghost_vpn.Shaper.Burst.{IsShort}
use ghost_vpn.Shaper.Make.{Config, Shaping, new_shaper}
use ghost_vpn.Shaper.Make.Calls.{Call, sent, asks, run_calls, new_shaper_total}
use ghost_vpn.Base.{
  All, none, ◌≡◌, refl, ℕ, ◌+◌, ◌-◌, ◌*◌, ◌/◌, true, false, [], Bytes, replicate, ltb, leb, List,
  ◌∷◌, some,
}
use ghost_vpn.Io.{ℤ, eof, pos, Result, ok}
use ghost_vpn.Io.Buffer.{buffer}
use ghost_vpn.Mux.Codec.{write_frame}
use ghost_vpn.Mux.Conn.{new_conn, send_padding}
use ghost_vpn.Shaper.Asymmetry.{record_down, Floats, padding_needed}
use ghost_vpn.Shaper.Distribution.{sample, new_sampler}
use ghost_vpn.Shaper.Padding.{Shaper, padding_tick, send_chunks}

abbrev whole : Floats ℕ
whole = record {
  of_int = λ n. n;
  add = λ a b. a + b;
  sub = λ a b. a - b;
  mul = λ a b. a * b;
  div = λ a b. a / b;
  less = λ a b. ltb a b;
  less_or_equal = λ a b. leb a b;
  to_int = λ n. pos n;
}

abbrev zeros : ℕ → Result Bytes
zeros n = ok (replicate n 0)

-- Five times 3 bytes are wanted, and 5 came down.
abbrev lopsided : Shaper ℕ Bytes
lopsided = record {
  conn = new_conn (record { pending = []; last = eof }) [] true false 0;
  asym = record { target_ratio = 5; up_bytes = 3; down_bytes = 5 };
  enabled = true;
  stopped = false;
}

abbrev evened : Shaper ℕ Bytes
evened = (padding_tick whole 0 zeros lopsided).0

abbrev two_bins : List (Bin ℕ)
two_bins = record { v = 40; w = 1 } ∷ record { v = 1400; w = 3 } ∷ []

-- The second bin, with half the distance to the first one added.
drawn : sample whole 1 1 (new_sampler whole two_bins true) ≡ some 2080
unfolding sample new_sampler
drawn = refl

-- Ten bytes more are recorded down.
evened_lem : evened.asym.down_bytes ≡ 15
unfolding padding_tick padding_needed send_chunks send_padding write_frame buffer record_down
evened_lem = refl

abbrev unconfigured : Config ℕ
unconfigured = record {
  profile = none;
  enabled = true;
  asymmetry_tolerance = 0;
  padding_interval = pos 0;
}

abbrev some_calls : List (Call ℕ)
some_calls = asks 5 0 0 0 0 ∷ sent ∷ asks 6 1 1 1 1 ∷ []

new_shaper_total_example :
    (s : Shaping ℕ Bytes) × (new_shaper whole lopsided.conn unconfigured 5 1 1 ≡ some s)
    × (r : List ℤ × Shaping ℕ Bytes) × (run_calls whole some_calls s ≡ some r)
    × All IsShort r.0
new_shaper_total_example = new_shaper_total whole lopsided.conn unconfigured 5 1 1 some_calls
