-- ===== src/Types/Headers.antt =====
-- The header that every published object carries, and the connection message.
use vda_5050_lib_2_0_0_js.Prelude.{ℕ, String}

pub record Header : Type 0 where
  pub header_id : ℕ
  pub manufacturer : String
  pub serial_number : String
  pub timestamp : String
  pub version : String

pub data ConnectionState : Type 0 where
  connectionbroken offline online : ConnectionState

pub record Connection : Type 0 where
  pub header : Header
  pub open header use *
  pub connection_state : ConnectionState
