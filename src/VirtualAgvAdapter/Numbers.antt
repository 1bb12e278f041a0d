-- ===== src/VirtualAgvAdapter/Numbers.antt =====
-- The arithmetic of doubles that src/adapter/virtual-agv-adapter.ts uses: the operators and `Math`
-- are parameters, the literals are given by their bits.
use vda_5050_lib_2_0_0_js.Prelude.{ℕ, String, Bool, false}
use vda_5050_lib_2_0_0_js.Types.{Double, Json}

pub record Arithmetic : Type 0 where
  pub add : Double → Double → Double
  pub subtract : Double → Double → Double
  pub multiply : Double → Double → Double
  pub divide : Double → Double → Double
  pub square : Double → Double
  pub less : Double → Double → Bool
  pub at_most : Double → Double → Bool
  -- `>=` on a value that comes from a message.
  pub reaches : Double → Json → Bool
  pub floor : Double → Double
  pub minimum : Double → Double → Double
  pub maximum : Double → Double → Double
  pub abs : Double → Double
  pub sqrt : Double → Double
  pub atan2 : Double → Double → Double
  pub cos : Double → Double
  pub sin : Double → Double
  pub to_text : Double → String
  -- A number of a message as a sequence ID.
  pub to_sequence_id : Double → ℕ
  -- `tick % Math.ceil(ratio) === 0`.
  pub divides_tick : Double → ℕ → Bool

abbrev double : ℕ → ℕ → Double
double exponent fraction = record { negative = false; exponent = exponent; fraction = fraction }

abbrev pub nought : Double
nought = double 0 0

abbrev pub half : Double
half = double 1022 0

abbrev pub one : Double
one = double 1023 0

abbrev pub two : Double
two = double 1024 0

abbrev pub five : Double
five = double 1025 1125899906842624

abbrev pub ten : Double
ten = double 1026 1125899906842624

abbrev pub twenty_four : Double
twenty_four = double 1027 2251799813685248

abbrev pub hundred : Double
hundred = double 1029 2533274790395904

abbrev pub thousand : Double
thousand = double 1032 4292493394837504

abbrev pub seconds_per_hour : Double
seconds_per_hour = double 1034 3412884092616704

abbrev pub default_battery_max_reach : Double
default_battery_max_reach = double 1037 3412884092616704

-- 0.349066, which is 20 degrees.
abbrev pub default_deviation_theta : Double
default_deviation_theta = double 1021 1784614402740342

abbrev pub not_a_number : Double
not_a_number = double 2047 2251799813685248
