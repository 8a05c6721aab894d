-- ===== src/Mls/Mappers/Examples.antt =====
-- A listing that the vendor calls active.
use frontstead_kit.Prelude.{◌≡◌, refl, some}
use frontstead_kit.Mls.Value.{text, str}
use frontstead_kit.Mls.Mappers.{normalize_status}
use frontstead_kit.Mls.Mappers.Safe.{normalize_status-active}
use frontstead_kit.Search.Collection.{active}

is_active : (normalize_status (text " Active ")).status ≡ some active
unfolding normalize_status str
is_active = refl

normalize_status-active_example : str (text " Active ") ≡ some "Active"
normalize_status-active_example = normalize_status-active (text " Active ") is_active
