-- ===== src/Mpack/Code.antt =====
-- The enumerations of mpack/mpack.h: result codes, byte orders and object types.

-- `mpack_code_t`
pub data Code : Type 0 where
  partial_complete : Code
  ok : Code
  error_internal : Code
  error_invalid_argument : Code
  error_invalid_callback : Code
  error_invalid_operation : Code
  error_invalid_format : Code
  error_invalid_type : Code
  error_not_enough_data : Code
  error_buffer_too_small : Code

-- `mpack_endian_t`
pub data Endian : Type 0 where
  unknown big little : Endian

-- `mpack_type_t`
pub data ObjectType : Type 0 where
  no_type int uint nil bool float double str bin ext array map : ObjectType
