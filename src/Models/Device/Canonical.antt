-- ===== src/Models/Device/Canonical.antt =====
-- The checks of canonical records pass on canonical identities.
use smartenit_rescue.Prelude.{◌≡◌, eq_refl}
use smartenit_rescue.Prelude.Result.{ok}
use smartenit_rescue.Prelude.Text.{text_eq}
use smartenit_rescue.Models.Identity.{DeviceId}
use smartenit_rescue.Models.Identity.Canonical.{IsCanonical, parse_device_id_value}
use smartenit_rescue.Models.Device.{require_canonical}

pub require_canonical_lem : (d : DeviceId) → IsCanonical d → require_canonical d ≡ ok tt
unfolding require_canonical
require_canonical_lem d c = rw (parse_device_id_value d c) (rw (eq_refl text_eq d.value))
