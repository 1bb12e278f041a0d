-- ===== src/Types/Values.antt =====
-- Values that pass through the library without being computed with.
use vda_5050_lib_2_0_0_js.Prelude.{ℕ, String, Bool, true, false, not, ◌&&◌, ◌||◌, eqb}

-- A finite double: sign, biased exponent and fraction, as IEEE 754 lays them out.
pub record Double : Type 0 where
  pub negative : Bool
  pub exponent : ℕ
  pub fraction : ℕ

-- `any`, as it arrives through JSON.
mutual
  pub data Json : Type 0 where
    null : Json
    bool : Bool → Json
    number : Double → Json
    text : String → Json
    array : JsonItems → Json
    object : JsonFields → Json

  pub data JsonItems : Type 0 where
    nil : JsonItems
    cons : Json → JsonItems → JsonItems

  pub data JsonFields : Type 0 where
    end : JsonFields
    field : String → Json → JsonFields → JsonFields

abbrev pub is_zero : Double → Bool
is_zero d = eqb d.exponent 0 && eqb d.fraction 0

abbrev pub same_bool : Bool → Bool → Bool
same_bool true b = b
same_bool false b = not b

-- `===` of two doubles that are numbers: the zeros are the same.
unfoldable pub same_double : Double → Double → Bool
same_double a b =
    (is_zero a && is_zero b)
    || (same_bool a.negative b.negative && (eqb a.exponent b.exponent && eqb a.fraction b.fraction))
