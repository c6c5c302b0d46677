-- ===== src/Napcat/Gjson.antt =====
-- The calls of the OneBot API and what is read of its answers: zero.Params, zero.APIResponse and
-- gjson.Result.
use miss_raspberry_agent.Prelude.{ℤ, ℕ_eq, ℤ_eq, Bool, List, Text, text_eq_inst}
use miss_raspberry_agent.Prelude.Table.{Table}

-- What is used of gjson.Result: Get with a path, Exists, Array, Int, String, and whether the type is
-- String.
pub record Gjson (J : Type 0) : Type 0 where
  pub get : Text → J → J
  pub exists : J → Bool
  pub array : J → List J
  pub int : J → ℤ
  pub string : J → Text
  pub is_string : J → Bool

pub data Param : Type 0 where
  number : ℤ → Param
  text : Text → Param

pub record ActionCall : Type 0 where
  pub action : Text
  pub params : Table Text Param

pub record ApiResponse (J : Type 0) : Type 0 where
  pub ret_code : ℤ
  pub data_of : J
  pub message : Text
  pub wording : Text
