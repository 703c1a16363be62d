-- ===== src/Examples/Failures.antt =====
-- A write that encryption refuses.
use space.Prelude.{crypto_failed, err, nat_eq, bytes_eq}
use space.Pipeline.Services.{Services}
use space.Examples.Capsules.{services}

abbrev refusing : Services
refusing = record services { seal = λ h b. err crypto_failed }
