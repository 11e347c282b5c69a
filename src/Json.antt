-- ===== src/Json.antt =====
-- The calls of third_party/yyjson that src/protocol.cpp and src/voice_settings.cpp make. The library
-- is not part of the model: a `Json` is a parameter, of which nothing is assumed unless a theorem
-- says so.
use tiny_robotic_voice.Common.{ℕ, Bool, Bytes, Option, List, ℤ}

-- A value `V` is what a pointer that is not NULL points to; `obj_get` gives `none` for NULL.
pub record Json (V D : Type 0) : Type 0 where
  -- `yyjson_read_opts` and `yyjson_doc_get_root`.
  pub read : Bytes → Option V
  -- `yyjson_val_write`.
  pub write : V → Option Bytes
  pub is_obj : V → Bool
  pub obj_get : V → Bytes → Option V
  -- The keys in the order of `yyjson_obj_foreach`.
  pub obj_keys : V → List Bytes
  pub is_str : V → Bool
  pub get_str : V → Bytes
  pub is_num : V → Bool
  pub get_num : V → D
  pub is_sint : V → Bool
  pub get_sint : V → ℤ
  pub is_uint : V → Bool
  pub get_uint : V → ℕ
