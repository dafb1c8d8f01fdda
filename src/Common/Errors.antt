-- ===== src/Common/Errors.antt =====
-- `uesim_error_t` of src/uesim.h, the return code that every layer shares.

pub data Status : Type 0 where
  success invalid_param memory socket thread timeout protocol file not_initialized : Status
  not_found already_exists capacity key_refresh_required max_retries retry : Status
  init_error test_failed : Status
