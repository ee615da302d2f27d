-- ===== src/Provider/State.antt =====
-- enum mem_service_provider_state; a provider's probe may write any number.
use mem_service.Base.{ℕ}

abbrev pub unknown : ℕ
unknown = 0

abbrev pub ready : ℕ
ready = 1

abbrev pub unavailable : ℕ
unavailable = 3
